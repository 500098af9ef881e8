-- ===== src/Directives.antt =====
-- co2_preprocessor/src/expr_eval.rs: an `#if` expression before it is evaluated.
pub mod Lists
pub mod Scan
pub mod Idents
pub mod Defined
pub mod Expand
