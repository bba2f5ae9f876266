-- ===== src/Util.antt =====
-- src/util.
pub mod Bytes
pub mod LruCache
pub mod QuantizedBuffer
pub mod Semaphore
