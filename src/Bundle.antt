-- ===== src/Bundle.antt =====
-- src/kdiag/bundle.py: the manifest of a collection's directory.
pub mod Files
pub mod Verify
pub mod Intact
pub mod Listing
pub mod Written
pub mod RoundTrip
pub mod Guarantee
pub mod Integrity
