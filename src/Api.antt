-- ===== src/Api.antt =====
-- The request handlers of internal/api.
pub mod Filter
pub mod Page
pub mod Auth
pub mod Peers
pub mod Topology
pub mod History
pub mod Stream
pub mod Summary
pub mod Paths
