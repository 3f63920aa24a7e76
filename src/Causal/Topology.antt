-- ===== src/Causal/Topology.antt =====
-- `_add_kubernetes_topology` of src/kdiag/causal.py: the graph of a cluster's objects, and the identifiers that
-- the name of an object stands for. The child modules have the loops, in the order of the code.
pub mod Objects
pub mod Workloads
pub mod Storage
pub mod Components
