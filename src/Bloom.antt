-- ===== src/Bloom.antt =====
-- bloom/: Bloom filters over fixed-size bit sets.
pub mod BitSet
pub mod Filter
