-- ===== src/Agents.antt =====
-- The accounting of language models (src/commerce_operations/ai) and the schemas of their answers
-- (src/commerce_operations/agents).
pub mod Usage
pub mod Answers
