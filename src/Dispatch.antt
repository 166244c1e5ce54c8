-- ===== src/Dispatch.antt =====
-- flowgency/dispatch: the schedules of routines and the cycle that submits the due ones.
pub mod Schedule
pub mod Lost
pub mod Run
mod Examples
