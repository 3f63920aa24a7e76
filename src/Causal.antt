-- ===== src/Causal.antt =====
-- src/kdiag/causal.py: the lifecycle and the causal role of findings, the bounded topology graph, the search
-- through it and the ranking of hypotheses. The child modules hold the parts of the file.
pub mod Finding
pub mod Graph
pub mod Rank
pub mod Topology
pub mod Reach
pub mod Effects
