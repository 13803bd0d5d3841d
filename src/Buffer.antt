-- ===== src/Buffer.antt =====
-- The buffer pool (src/buffer): the replacer's interface, the LRU replacer and the pool manager.
pub mod Replacer
pub mod Lru
pub mod Pool
mod Tests
