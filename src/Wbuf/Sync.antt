-- ===== src/Wbuf/Sync.antt =====
-- The cache over `nfs_MWrite`, the choice of `iwc_FlushCache` where `ng_NumWRPCs` is 1.
use anfs.Base.{ℕ, ◌<◌}
use anfs.Nfs.Calls.{Rpc, Server}
use anfs.Nfs.MWrite.{m_write}
use anfs.Nfs.MWrite.Contents.{m_write-Writes}
use anfs.Wbuf.Flush.{Writer}

abbrev pub sync_writer :
    {W : Type 0} (rpc : Rpc W) → Server rpc → (max_write_size : ℕ) → 0 < max_write_size → Writer W
sync_writer rpc server max_write_size m = record {
  contents = server.contents;
  nfs_write = m_write rpc max_write_size;
  nfs_write-Writes = λ w offset buf h. m_write-Writes rpc server max_write_size w offset buf m h;
}
