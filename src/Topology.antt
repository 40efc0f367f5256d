-- ===== src/Topology.antt =====
-- internal/topology: the reconciler of advertisements and the graph.
pub mod Merge
pub mod Reconcile
pub mod Graph
