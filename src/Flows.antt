-- ===== src/Flows.antt =====
-- Events on their way from one service to another.
pub mod Registration
pub mod Push
pub mod Examples
