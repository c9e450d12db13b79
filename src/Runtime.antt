-- ===== src/Runtime.antt =====
-- exam_predictor/runtime: agent runs, their durable store, stop requests and the coordinator.
pub mod Models
pub mod Control
pub mod Store
pub mod Coordinator
