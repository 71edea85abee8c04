-- ===== src/Engine.antt =====
-- src/kai_daemon/engine.py: the workflow engine. `Types` is its state, `Queue` the priority queue,
-- `Operations` and `Run` the methods, `Schedule` the times of the cron triggers; the other modules prove.
pub mod Types
pub mod Queue
pub mod Operations
pub mod Run
pub mod System
pub mod Submit
pub mod Sound
pub mod Order
pub mod Preempting
pub mod Completion
pub mod Endings
pub mod Schedule
mod Tests
