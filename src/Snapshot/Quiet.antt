-- ===== src/Snapshot/Quiet.antt =====
-- The transaction calls of the operations below the methods of the snapshotter.
pub mod Device
pub mod Layers
pub mod Methods
pub mod Services
pub mod Queries
