-- ===== src/Nfssupp/Laws.antt =====
-- What the conversions keep.
use anfs.Base.{ℕ, ◌<◌, ◌-◌, ◌^◌, ◌≡◌, ◌↔◌, arith, ltb, if◌then◌else◌}
use anfs.Nfssupp.{Nfsstat, nfs_ok, no_error, Acttype, nfs_err2io_err_cont, nfsuid2uid, uid2nfsuid}

-- `NFSErr2IoErrCont` gives 0 exactly for `NFS_OK`, whatever the kind of action: a failure is never
-- reported without an error code.
pub nfs_err2io_err_cont-eq-no_error_iff :
    (i : Nfsstat) (acttype : Acttype) → (nfs_err2io_err_cont i acttype ≡ no_error) ↔ (i ≡ nfs_ok)
unfolding nfs_err2io_err_cont
nfs_err2io_err_cont-eq-no_error_iff i acttype = (ground arith, ground arith)

-- Every 16 bit user survives the way to the server and back. A user of the server survives the way
-- from the server and back if it is below 0xffff, and becomes nobody otherwise.
pub uid_round_trip :
    (uid nfsuid : ℕ)
    → uid < 2 ^ 16
    → (nfsuid2uid (uid2nfsuid uid) ≡ uid)
      × (uid2nfsuid (nfsuid2uid nfsuid) ≡ (if ltb nfsuid 0xffff then nfsuid else 2 ^ 32 - 1))
unfolding nfsuid2uid uid2nfsuid
uid_round_trip uid nfsuid h = (ground arith, ground arith)
