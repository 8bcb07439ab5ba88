-- ===== src/Server.antt =====
-- server/: the reads of a shard, the replicas, and the frontend that puts writes and reads in order.
pub mod Config
pub mod Reads
pub mod Replica
pub mod Frontend
pub mod ReadPath
