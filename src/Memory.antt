-- ===== src/Memory.antt =====
-- The memory components: the atomic bitset and the ring buffer.
pub mod Bitset
pub mod Spsc
pub mod Mpmc
