-- ===== src/Tests.antt =====
-- Runs at concrete inputs, and the theorems at inputs that meet their hypotheses.
mod Numbers
mod Bencode
mod Nodes
mod Table
mod Storage
mod Caches
mod Queries
mod CacheControl
mod HashLists
mod Signatures
mod Groups
