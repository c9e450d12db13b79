-- ===== src/Evidence.antt =====
-- exam_predictor/evidence: the durable store of prepared source parts and their evidence.
pub mod Tokens
pub mod Models
pub mod Store
pub mod Policy
pub mod Scheduler
