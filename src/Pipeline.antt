-- ===== src/Pipeline.antt =====
-- co2_preprocessor/src/pipeline.rs: the handlers of directives, and the lines that wait for more.
pub mod Directives
pub mod Pragmas
pub mod Guards
pub mod Pending
pub mod Accumulate
