-- ===== src/Config.antt =====
-- src/kdiag/config.py and src/kdiag/analysis.py: the configuration, its merge with the defaults, its checks, and the
-- analysis window.
pub mod Analysis
pub mod Merge
pub mod Validate
pub mod Defaults
pub mod Known
