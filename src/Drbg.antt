-- ===== src/Drbg.antt =====
-- drbg/: a generator of bytes from a seed by SipHash, and the overlay of data with its bytes.
pub mod Seed
pub mod HashDrbg
