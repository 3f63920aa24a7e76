-- ===== src/Normalize.antt =====
-- src/kdiag/normalize.py: normalized events, the bounded table of message fingerprints, and the
-- correlation of events. The child modules hold the parts of the file and the proofs about them.
pub mod Event
pub mod Classify
pub mod Fingerprint
pub mod Append
pub mod Deduplicate
pub mod Correlate
pub mod Limit
