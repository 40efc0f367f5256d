-- ===== src/Bgp.antt =====
-- internal/bgp: the collector.
pub mod Collector
pub mod Session
