-- ===== src/Nfssupp/Tests.antt =====
-- The theorems at concrete values.
use anfs.Base.{◌≡◌, refl}
use anfs.Nfssupp.{
  nfserr_acces, error_read_protected, Acttype, nfs_err2io_err_cont, client2io_err, number,
}

denied : nfs_err2io_err_cont nfserr_acces Acttype.read ≡ error_read_protected
unfolding nfs_err2io_err_cont
denied = refl

timed_out : client2io_err 5 ≡ number 1004
unfolding client2io_err
timed_out = refl
