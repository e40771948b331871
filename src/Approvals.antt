-- ===== src/Approvals.antt =====
-- Human approvals (src/commerce_operations/approvals).
pub mod Policy
pub mod Engine
