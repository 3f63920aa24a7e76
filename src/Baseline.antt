-- ===== src/Baseline.antt =====
-- src/kdiag/baseline.py: the profile of a stable state, its approval, and the comparison of two profiles.
pub mod Profile
pub mod Paths
pub mod Compare
pub mod Approve
pub mod Stable
pub mod Findings
pub mod Gaps
