-- ===== src/Conditionals.antt =====
-- co2_preprocessor/src/conditionals.rs: the conditional stack, and `#if` expressions.
pub mod Stack
pub mod Word
pub mod Operators
pub mod Parser
pub mod Grammar
pub mod Tokenizer
