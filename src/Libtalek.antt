-- ===== src/Libtalek.antt =====
-- The client library under libtalek/.
pub mod Message
pub mod Handle
pub mod Topic
pub mod Client
