-- ===== src/Cluster.antt =====
-- pkg/model (clusters and endpoints) and pkg/cluster: the runtime of an upstream cluster.
pub mod Address
pub mod Endpoint
pub mod Identity
pub mod UniqueId
pub mod Snapshot
pub mod Runtime
mod Tests
