-- ===== src/Cache.antt =====
-- The signatures of the blocks of a cached response, of src/cache.
pub mod DhtGroups
pub mod ChainHasher
pub mod HashList
pub mod HttpSignature
pub mod SignedHead
pub mod ResourceId
pub mod ResponsePart
pub mod VerifyingReader
pub mod SigningReader
