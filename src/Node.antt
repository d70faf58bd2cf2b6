-- ===== src/Node.antt =====
-- driver/node.go: the node service over the disk utilities.
pub mod Requests
pub mod Laws
pub mod Hosted
pub mod Filled
pub mod Stage
pub mod Publish
pub mod Status
