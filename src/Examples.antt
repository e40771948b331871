-- ===== src/Examples.antt =====
-- Runs of the models on concrete data: each theorem applied to an input that exercises the code.
pub mod Lifecycles
pub mod Outbox
pub mod Delivery
pub mod Decisions
pub mod Workflows
pub mod Purchases
pub mod Orders
pub mod Refunds
pub mod Prices
pub mod Products
pub mod Messages
pub mod Access
pub mod Stock
pub mod Listings
