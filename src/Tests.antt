-- ===== src/Tests.antt =====
-- Runs of the modelled functions on concrete texts, and the theorems at concrete inputs.
mod Conditions
mod Macros
mod Scanners
mod Passes
mod Lines
mod Expansion
mod Expander
mod Pipeline
