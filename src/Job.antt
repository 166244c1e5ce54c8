-- ===== src/Job.antt =====
-- flowgency/jobs: the records of jobs and the queue.
pub mod Store
pub mod Progression
pub mod Queue
pub mod Spec
pub mod Pool
pub mod Claims
pub mod Waiting
mod Examples
