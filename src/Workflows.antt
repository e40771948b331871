-- ===== src/Workflows.antt =====
-- The durable workflow engine of src/commerce_operations/workflows.
pub mod Definitions
pub mod Engine
pub mod Scheduler
