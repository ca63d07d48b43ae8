-- ===== src/Nfssupp.antt =====
-- src/nfssupp.c: the AmigaDOS error for a status of the server, and the identities of users.
pub mod Laws
pub mod Tests
use anfs.Base.{ℕ, ◌+◌, ◌-◌, ◌%◌, ◌^◌, ◌==◌, leb, if◌then◌else◌}

-- `nfsstat`; `other` is a number that the enumeration does not name.
pub data Nfsstat : Type 0 where
  nfs_ok nfserr_perm nfserr_noent nfserr_io nfserr_nxio nfserr_acces nfserr_exist : Nfsstat
  nfserr_nodev nfserr_notdir nfserr_isdir nfserr_fbig nfserr_nospc nfserr_rofs : Nfsstat
  nfserr_nametoolong nfserr_notempty nfserr_dquot nfserr_stale nfserr_wflush : Nfsstat
  other : ℕ → Nfsstat

-- An error code of `dos/dos.h` by its name. `no_error` is 0, `number n` is n + 1.
pub data IoErr : Type 0 where
  no_error error_write_protected error_read_protected error_object_not_found : IoErr
  error_object_exists error_object_wrong_type error_object_too_large error_disk_full : IoErr
  error_disk_write_protected error_bad_stream_name error_directory_not_empty : IoErr
  error_invalid_lock error_bad_number error_file_not_object error_object_in_use : IoErr
  error_no_free_store error_invalid_component_name error_seek_error : IoErr
  error_required_arg_missing error_is_soft_link : IoErr
  number : ℕ → IoErr

-- `NFSErr2IoErr`
pub nfs_err2io_err : Nfsstat → IoErr
nfs_err2io_err nfs_ok = no_error
nfs_err2io_err nfserr_perm = error_write_protected
nfs_err2io_err nfserr_noent = error_object_not_found
nfs_err2io_err nfserr_io = error_object_not_found
nfs_err2io_err nfserr_nxio = error_object_not_found
nfs_err2io_err nfserr_acces = error_write_protected
nfs_err2io_err nfserr_exist = error_object_exists
nfs_err2io_err nfserr_nodev = error_object_not_found
nfs_err2io_err nfserr_notdir = error_object_wrong_type
nfs_err2io_err nfserr_isdir = error_object_wrong_type
nfs_err2io_err nfserr_fbig = error_object_too_large
nfs_err2io_err nfserr_nospc = error_disk_full
nfs_err2io_err nfserr_rofs = error_disk_write_protected
nfs_err2io_err nfserr_nametoolong = error_bad_stream_name
nfs_err2io_err nfserr_notempty = error_directory_not_empty
nfs_err2io_err nfserr_dquot = error_disk_full
nfs_err2io_err nfserr_stale = error_invalid_lock
nfs_err2io_err nfserr_wflush = number 99
nfs_err2io_err (other n) = error_bad_number

-- The `acttype` of `NFSErr2IoErrCont`: 'r', 'w', 'c', or another character.
pub data Acttype : Type 0 where
  read write create none_of_these : Acttype

-- The two inner switches of `NFSErr2IoErrCont`; `no_error` where no case fits.
pub by_context : Nfsstat → Acttype → IoErr
by_context nfserr_perm create = error_write_protected
by_context nfserr_perm write = error_write_protected
by_context nfserr_perm read = error_read_protected
by_context nfserr_acces create = error_write_protected
by_context nfserr_acces write = error_write_protected
by_context nfserr_acces read = error_read_protected
by_context i acttype = no_error

-- `NFSErr2IoErrCont`
unfoldable pub nfs_err2io_err_cont : Nfsstat → Acttype → IoErr
unfolding by_context nfs_err2io_err
nfs_err2io_err_cont nfs_ok acttype = no_error
nfs_err2io_err_cont i acttype =
    let general = nfs_err2io_err i in elim (by_context i acttype) [ no_error ↦ general | l ↦ l ]

-- `CLIENT2IoErr` of the status that `clnt_geterr` reports: the table holds `RPC_SUCCESS`, 0, alone.
unfoldable pub client2io_err : ℕ → IoErr
client2io_err clstat = if clstat == 0 then no_error else number (999 + clstat)

-- `nfsuid2UID` and `nfsgid2GID`, from 32 to 16 bits
pub nfsuid2uid : ℕ → ℕ
nfsuid2uid uid = if leb 0xffff uid then 0 else (if uid == 0 then 0xffff else uid % 2 ^ 16)

-- `UID2nfsuid` and `GID2nfsgid`; `(u_int) -1` is the largest number of 32 bits.
pub uid2nfsuid : ℕ → ℕ
uid2nfsuid uid = if uid == 0xffff then 0 else (if uid == 0 then 2 ^ 32 - 1 else uid)
