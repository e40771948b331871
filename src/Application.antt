-- ===== src/Application.antt =====
-- The application services of src/commerce_operations/application.
pub mod Procurement
pub mod Stock
pub mod Inventory
pub mod Reservations
pub mod Orders
pub mod Refunds
pub mod Pricing
pub mod CustomerService
pub mod Orchestration
