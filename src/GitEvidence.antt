-- ===== src/GitEvidence.antt =====
-- flowgency/git_evidence: the names of refs that a policy allows, and the proof of a publication.
pub mod Refs
pub mod Publication
mod Examples
