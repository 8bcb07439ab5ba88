-- ===== src/Tests.antt =====
-- Runs on small inputs, and the theorems at inputs where their hypotheses hold.
mod Pir
mod Cuckoo
mod Drbg
mod Serving
mod Shard
mod Coordinator
mod Bloom
mod Libtalek
mod Crypto
mod Topic
mod Client
mod Frontend
mod ReadPath
mod Delivery
