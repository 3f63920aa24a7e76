-- ===== src/Report.antt =====
-- src/kdiag/report.py: the coverage of the sources and the ledger of the rules, with the catalogue of rules of
-- src/kdiag/rule_catalog.py.
pub mod Coverage
pub mod Catalog
pub mod Requirements
pub mod Ledger
pub mod Met
pub mod Sound
pub mod Evidence
