-- ===== src/Integrations.antt =====
-- What comes in from other systems (src/commerce_operations/integrations).
pub mod Contracts
pub mod Products
pub mod Marketplaces
