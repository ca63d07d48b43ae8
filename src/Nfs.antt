-- ===== src/Nfs.antt =====
-- src/nfs.c: reads and writes of any length, cut into calls of the server, and the lookup of a name.
-- The remote procedures are outside the repository: they are parameters, over a world that holds
-- the server and the client handle.
pub mod Calls
pub mod Lookup
pub mod MRead
pub mod MWrite
pub mod MaWrite
pub mod Disk
pub mod Tests
