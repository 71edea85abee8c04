-- ===== src/Workflows.antt =====
-- src/kai_daemon/workflows: what the workflow engine runs, and how a run is preempted.
pub mod Preemption
pub mod PushEvaluation
pub mod EpisodicFlush
pub mod SessionEnd
pub mod HealthCheck
pub mod Pollination
