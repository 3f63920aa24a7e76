-- ===== src/Tests.antt =====
-- Runs of the model at concrete data, and the theorems at inputs that meet their hypotheses.
mod Normalizing
mod Causes
mod Baselines
mod Configs
mod Reports
mod Exports
mod Bundles
mod Identities
mod Collecting
