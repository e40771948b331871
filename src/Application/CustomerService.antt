-- ===== src/Application/CustomerService.antt =====
-- src/commerce_operations/application/customer_service.py: answers to customers.
pub mod Screen
pub mod Handling
pub mod Inbox
pub mod Outcomes
pub mod Safety
pub mod Replies
