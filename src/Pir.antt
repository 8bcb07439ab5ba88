-- ===== src/Pir.antt =====
-- The private information retrieval code under pir/.
pub mod Xor
pub mod ShardCpu
pub mod Client
pub mod Server
pub mod Retrieval
