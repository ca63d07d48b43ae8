-- ===== src/Wbuf/Flush.antt =====
-- `iwc_FlushCache` and `wc_FlushCache` of src/wbuf.c. The flag for empty blocks guards an assertion
-- alone: a header with no dirty range is released in either case.
pub mod Contents
pub mod Pool
use anfs.Base.{ℕ, zero, suc, ◌+◌, ◌-◌, ◌<◌, ◌^◌, List, [], ◌∷◌, length, Bytes, slice}
use anfs.Nfs.MWrite.{Writing}
use anfs.Nfs.MWrite.Contents.{Writes}
use anfs.Nfssupp.{IoErr}
use anfs.Wbuf.Info.{Wbufhdrinfo}
use anfs.Wbuf.State.{Wbufhdr, State, Run, ok, err, fault, M, release_wbuf}

-- The function that sends bytes, `nfs_MWrite` or `nfs_MAWrite` as `ng_NumWRPCs` says.
pub record Writer (W : Type 0) : Type 0 where
  pub contents : W → Bytes
  pub nfs_write : W → (offset : ℕ) → List ℕ → Writing W
  pub nfs_write-Writes :
      (w : W) (offset : ℕ) (buf : List ℕ)
      → offset + length buf < 2 ^ 32
      → Writes contents (contents w) offset buf (nfs_write w offset buf)

-- After the ranges of one buffer: all were sent, or one of them failed.
pub data Sent (W : Type 0) : Type 0 where
  sent : W → Sent W
  unsent : W → IoErr → Sent W
  invalid : Sent W

-- The bytes of a dirty range
abbrev pub range_bytes : Bytes → Wbufhdrinfo → List ℕ
range_bytes bytes wbi = slice bytes wbi.wbi_from (wbi.wbi_to + 1 - wbi.wbi_from)

-- What follows the sending of one range; `again` goes on with the next.
pub after_send : {W : Type 0} → (again : W → Sent W) → Writing W → Sent W
after_send again (Writing.done w n size) = again w
after_send again (Writing.failed w e) = unsent w e
after_send again Writing.undefined = invalid
after_send again Writing.stuck = invalid

-- No header is left in the cluster.
pub emptied : {W : Type 0} → State W → State W
emptied s = record s { wbc = record wbc { wbufs_used = 0; bufs = [] } }
  where
    open s use {wbc}

-- The loop after a failure: every header that is left is released.
pub release_all : {W : Type 0} → IoErr → (used : ℕ) → List Wbufhdr → M W (Unit {0})
release_all e zero bufs s = err e (emptied s)
release_all e (suc used) [] s = fault
release_all e (suc used) (wbh ∷ rest) s = release_all e used rest (release_wbuf wbh s)

-- What follows the ranges of the first buffer; `again` goes on with the next buffer.
pub after_ranges :
    {W : Type 0}
    → (again : M W (Unit {0})) → (used : ℕ) → Wbufhdr
    → List Wbufhdr
    → State W
    → Sent W
    → Run W (Unit {0})
after_ranges again used wbh rest s (sent w) = again (release_wbuf wbh (record s { world = w }))
after_ranges again used wbh rest s (unsent w e) =
    release_all e used rest (release_wbuf wbh (record s { world = w }))
after_ranges again used wbh rest s invalid = fault

module _ {W : Type 0} (writer : Writer W) where
  -- The inner loop, over the ranges of a buffer at `offs` that holds `bytes`
  pub send_ranges : (offs : ℕ) → Bytes → List Wbufhdrinfo → W → Sent W
  send_ranges offs bytes [] w = sent w
  send_ranges offs bytes (wbi ∷ rest) w =
      after_send (send_ranges offs bytes rest)
        (writer.nfs_write w (offs + wbi.wbi_from) (range_bytes bytes wbi))

  -- The outer loop: `WBufRemHead` counts `wbc_WBufsUsed` down and takes the first header.
  pub flush_bufs : (used : ℕ) → List Wbufhdr → M W (Unit {0})
  flush_bufs zero bufs s = ok tt (emptied s)
  flush_bufs (suc used) [] s = fault
  flush_bufs (suc used) (wbh ∷ rest) s =
      after_ranges (flush_bufs used rest) used wbh rest s
        (send_ranges wbh.wbh_file_offs (s.mem wbh.wbh_data) wbh.wbh_info s.world)

  unfoldable pub flush_cache : M W (Unit {0})
  unfolding after_send send_ranges emptied release_all after_ranges flush_bufs release_wbuf
  flush_cache s = flush_bufs s.wbc.wbufs_used s.wbc.bufs s
