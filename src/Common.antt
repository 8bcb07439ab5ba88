-- ===== src/Common.antt =====
-- common/: types that the clients and the servers share.
pub mod ReadArgs
pub mod Range
pub mod Protocol
pub mod Encoding
