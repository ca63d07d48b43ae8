-- ===== src/Wbuf.antt =====
-- src/wbuf.c, the write cache of a file handle.
pub mod Info
pub mod State
pub mod Headers
pub mod Flush
pub mod Sync
pub mod View
pub mod Write
pub mod WriteCache
pub mod Tests
