-- ===== src/Kubernetes.antt =====
-- src/kdiag/kubernetes.py: the container logs that are read within a number of bytes, and queries to Prometheus.
pub mod Pods
pub mod Logs
pub mod Complete
pub mod Sources
pub mod Range
pub mod Within
