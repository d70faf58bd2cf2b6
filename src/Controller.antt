-- ===== src/Controller.antt =====
-- driver/controller.go: the controller service, a module for each group of its handlers.
pub mod Sizing
pub mod Create
pub mod Paging
pub mod Attach
pub mod Interleaved
pub mod Volumes
pub mod Snapshots
