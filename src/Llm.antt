-- ===== src/Llm.antt =====
-- src/kdiag/llm_export.py: the size of a package for a language model.
pub mod Trim
pub mod Fits
pub mod Bounded
pub mod Response
pub mod Contract
