-- ===== src/Utils.antt =====
-- co2_preprocessor/src/utils.rs: byte classes and literal scanning, shared by the preprocessor.
pub mod Classes
pub mod Literals
pub mod Raw
pub mod Scans
pub mod Splice
pub mod Ucn
pub mod Text
pub mod Ident
pub mod Escapes
pub mod Names
pub mod Ascii
