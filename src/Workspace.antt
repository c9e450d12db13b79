-- ===== src/Workspace.antt =====
-- exam_predictor/workspace: the workspaces, their manifests, approvals, jobs and clean-ups.
pub mod Models
pub mod Paths
pub mod Store
pub mod Transmission
mod Scenarios
