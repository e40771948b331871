-- ===== src/Persistence.antt =====
-- The persistence layer: enumerations, rows and tables (src/commerce_operations/persistence).
pub mod Enums
pub mod Keys
pub mod Json
pub mod Tables
pub mod Models
pub mod Commercial
pub mod Catalog
pub mod Conversations
