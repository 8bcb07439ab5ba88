-- ===== src/Cuckoo.antt =====
-- The cuckoo table under cuckoo/.
pub mod Item
pub mod Table
