-- ===== src/Workflow.antt =====
-- flowgency/workflows: the contract of a workflow and the rules of its transitions.
pub mod Values
pub mod Definition
pub mod Validity
pub mod Editing
pub mod Library
pub mod Lookup
pub mod Rules
pub mod Examples
