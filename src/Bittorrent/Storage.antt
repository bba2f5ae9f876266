-- ===== src/Bittorrent/Storage.antt =====
-- src/bittorrent/dht_storage.h and dht_storage.cpp.
pub mod Swarm
pub mod Tokens
pub mod Keys
pub mod DataStore
pub mod Tracker
