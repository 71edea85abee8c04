-- ===== src/State.antt =====
-- src/kai_daemon/state: the stores that the daemon keeps on disk, and what it computes from them.
pub mod Types
pub mod Table
pub mod Holding
pub mod Observability
pub mod Threads
pub mod Floats
pub mod DistillationMetrics
pub mod Discharge
pub mod Register
pub mod ThreadStack
pub mod Borderline
pub mod Scratch
pub mod PushHistory
pub mod WorkingMemory
pub mod Episodic
pub mod LocalEpisodic
pub mod Retrieval
pub mod Tests
