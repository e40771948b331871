-- ===== src/Domains.antt =====
-- The pure domain rules (src/commerce_operations/domains).
pub mod Orders
pub mod Procurement
pub mod Inventory
pub mod Pricing
