-- ===== src/Bittorrent.antt =====
-- src/bittorrent.
pub mod Bencoding
pub mod Compact
pub mod DhtNode
pub mod ProximityMap
pub mod MutableData
pub mod NodeId
pub mod RoutingTable
pub mod Storage
