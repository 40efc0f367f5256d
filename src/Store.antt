-- ===== src/Store.antt =====
-- internal/store/store.go: the embedded current-state and event store.
pub mod Pebble
pub mod Json
pub mod Maps
pub mod State
pub mod Reads
pub mod History
pub mod Load
