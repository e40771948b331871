-- ===== src/Events.antt =====
-- Domain events: their payloads, the outbox and the processor (src/commerce_operations/events).
pub mod Types
pub mod Store
pub mod Handlers
pub mod Processor
