-- ===== src/Lines.antt =====
-- co2_preprocessor/src/text_processing.rs: logical lines, and where their bytes come from.
pub mod Slices
pub mod Words
