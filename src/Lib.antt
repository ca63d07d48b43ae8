-- ===== src/Lib.antt =====
-- aNFS, an NFS version 2 client that AmigaDOS programs use as a file system.
--
-- A packet of AmigaDOS arrives at the handler (src/nfs_handler.c), which calls an action for it. Actions
-- on open files go through a write cache and a read-ahead buffer, which share one pool of buffers, and
-- reach the server by the procedures of src/nfs.c, over remote calls that generated code makes.
--
-- What models what:
-- - Base: the library's names, the tests of C, lists, and contents of a file as a function from positions
--   to bytes with a write over them (`overlay`).
-- - Nfssupp (src/nfssupp.c): the errors of the server and the client as AmigaDOS errors, and users.
-- - Nfs (src/nfs.c): `nfs_MRead`, `nfs_MWrite` and `nfs_MAWrite`, whose outstanding calls are the
--   interface `Async` with the promise `AsyncServer`. Nfs/Lookup has `nfs_Lookup` with its search through
--   the pages of a directory, over its calls and the comparisons of C in the record `Names`. The other
--   remote calls are a parameter, the record `Rpc`; what a server promises is the record `Server`.
--   Nfs/Disk has a server that keeps it.
-- - Mbuf (src/mbuf.c): the pool of buffers.
-- - Wbuf (src/wbuf.c): the write cache. Info has the dirty ranges of a buffer, State the pools and the
--   cluster of a file handle with the functions that link headers, Headers the pool of headers, Flush the
--   flush, Write `WBufSeekAndPrepare` and `WBufWrite`, WriteCache `FlushCacheAndWrite` and
--   `wc_WriteCache`. The cache sends by the interface `Writer`, which Sync fills with `nfs_MWrite`.
-- - Rbuf (src/rbuf.c): the read-ahead buffer of a file handle; Rbuf/Coherent says what it must hold.
-- - Fthash (src/common/fthash.c): the cache on a hash table, with the operations by key in Keys and the
--   calls on a table as steps in Keys/Steps.
-- - Fh (src/fh.c, src/seek.c): the list of file handles, and the seek.
-- - Locks (src/locks.c and `act_CHANGE_MODE` of src/object.c): the list of locks, and their modes.
-- - Fn (src/fn.c): names and paths. Split has the components of a path, Parent the names for Unix,
--   Scanning the calls of `fn_ScanPath`, Device the paths behind a device name, Unify `fn_PathUnify`.
-- - Lock (src/lock.c): the walk to the directory of a file. The caches and the server are the interface
--   `Directories`. Lock/Entries has `c_GetAttr`, `GetNameEntry` and `GetDirEntry` on the caches, which
--   fill that interface; `nfs_GetAttr`, `nfs_Lookup` and `AllocVec` are its parameter `Calls`.
--   Lock/Objects has the actions that locate, copy, free and compare locks, on the caches and the list of
--   locks together; `CBuildFullName`, which is not modelled, is its parameter `Names`.
-- - File (src/read.c, src/write.c, and `act_END` and `act_SET_FILE_SIZE` of src/find.c): an open file with
--   its write cache and read-ahead buffer together. The handle that `fh_Lookup` finds is an argument, with
--   the pools and the server in its state.
-- - Attrs (src/attrs.c) and Dcache (src/dcache.c): the caches of attributes and of directories with the
--   names in them, on Fthash. Dcache/Names compares the search by hash with one by name.
-- - Find (src/find.c): the actions that open a file, over the list of locks and the list of handles.
-- - Directory (src/object.c): delete, rename and create, over the caches and the list of locks.
--   Directory/Steps has the actions on locks as steps. The calls of the server are the parameters `Files`
--   and `Changes`.
-- - Filesys (src/filesys.c): `act_WRITE_PROTECT` and `DistributeBuffers`.
--
-- Conventions: pointers to buffers and headers are numbers, their addresses; the bytes of a buffer are
-- found by the address. A use of a pointer that is not valid, or of a value that was never set, is the
-- outcome `fault` (`undefined` in Nfs). Numbers are natural numbers; a 32 bit sum keeps its `% 2 ^ 32`
-- where the code may wrap. Loops that follow a list are recursions on it; the loops of `nfs_MRead`,
-- `nfs_MWrite` and `wc_WriteCache` run on fuel, one more than the number of bytes, which is enough since
-- each round of a transfer moves at least one byte; running out of it is an outcome of its own, `stuck`,
-- or `fault` in the write cache. `fn_PathUnify` and the walk of `RootLocateDir` run on fuel, one more than
-- the length of the path: each round takes a byte off it, or a component. `nfs_MAWrite` runs on fuel of
-- twice the number of bytes and one: a round sends a byte at least, or takes an answer off the outstanding
-- ones. The last loop of `DistributeBuffers` runs on the memory that is left. `nfs_LookupNC` takes its
-- fuel as an argument, and more than the entries of the directory is enough: a page that is neither empty
-- nor the last one has an entry at least.
--
-- Not modelled: `nfs_MARead`, `CBuildFullName`, links, the listing of directories, the start and the main
-- loop of the handler, XDR, mounting, and debug output. They are planned, or have no logic of their own.
pub mod Base
pub mod Nfssupp
pub mod Nfs
pub mod Mbuf
pub mod Wbuf
pub mod Rbuf
pub mod Fthash
pub mod Attrs
pub mod Dcache
pub mod Fn
pub mod Fh
pub mod File
pub mod Filesys
pub mod Locks
pub mod Lock
pub mod Find
pub mod Directory
