-- ===== src/Macros.antt =====
-- co2_preprocessor/src/macro_token.rs and macro_defs.rs: macro bodies, the table and the expander.
pub mod Token
pub mod Table
pub mod Paste
pub mod Args
pub mod Stringify
pub mod Body
pub mod Substitute
pub mod Copies
pub mod Expander
pub mod Lines
pub mod Define
