-- ===== src/Wbuf/Flush/Pool.antt =====
-- A flush leaves a pool of MBufs that counts its free nodes.
use anfs.Base.{ℕ, zero, suc, ◌≡◌, List, [], ◌∷◌, length, arith}
use anfs.Mbuf.{release_mbuf}
use anfs.Nfssupp.{IoErr}
use anfs.Wbuf.State.{Wbufhdr, State, Run, ok, err, fault, release_wbuf}
use anfs.Wbuf.Flush.{
  Writer, Sent, sent, unsent, invalid, send_ranges, emptied, release_all, after_ranges, flush_bufs,
  flush_cache,
}

abbrev pub CountsFree : {W : Type 0} → State W → Type 0
CountsFree s = s.mbufs.num_free_mbufs ≡ length s.mbufs.free_mbufs

-- The state that is left counts its free nodes.
abbrev pub LeavesCounted : {W : Type 0} → Run W (Unit {0}) → Type 0
LeavesCounted (ok a t) = CountsFree t
LeavesCounted (err e t) = CountsFree t
LeavesCounted fault = Unit {0}

module _ {W : Type 0} where
  release_wbuf-CountsFree :
      (wbh : Wbufhdr) (s : State W) → CountsFree s → CountsFree (release_wbuf wbh s)
  unfolding release_wbuf release_mbuf
  release_wbuf-CountsFree wbh s c = omega arith

  release_all-LeavesCounted :
      (e : IoErr) (used : ℕ) (bufs : List Wbufhdr) (s : State W)
      → CountsFree s
      → LeavesCounted (release_all e used bufs s)
  unfolding release_all emptied
  release_all-LeavesCounted e zero bufs s c = c
  release_all-LeavesCounted e (suc used) [] s c = tt
  release_all-LeavesCounted e (suc used) (wbh ∷ rest) s c =
      release_all-LeavesCounted e used rest (release_wbuf wbh s) (release_wbuf-CountsFree wbh s c)

  after_ranges-LeavesCounted :
      (again : State W → Run W (Unit {0})) (used : ℕ) (wbh : Wbufhdr) (rest : List Wbufhdr)
      (s : State W)
      → CountsFree s
      → ((t : State W) → CountsFree t → LeavesCounted (again t))
      → (r : Sent W) → LeavesCounted (after_ranges again used wbh rest s r)
  unfolding after_ranges
  after_ranges-LeavesCounted again used wbh rest s c next (sent w) =
      next _ (release_wbuf-CountsFree wbh (record s { world = w }) c)
  after_ranges-LeavesCounted again used wbh rest s c next (unsent w e) =
      release_all-LeavesCounted e used rest _
        (release_wbuf-CountsFree wbh (record s { world = w }) c)
  after_ranges-LeavesCounted again used wbh rest s c next invalid = tt

  module _ (writer : Writer W) where
    flush_bufs-LeavesCounted :
        (used : ℕ) (bufs : List Wbufhdr) (s : State W)
        → CountsFree s
        → LeavesCounted (flush_bufs writer used bufs s)
    unfolding flush_bufs emptied
    flush_bufs-LeavesCounted zero bufs s c = c
    flush_bufs-LeavesCounted (suc used) [] s c = tt
    flush_bufs-LeavesCounted (suc used) (wbh ∷ rest) s c =
        after_ranges-LeavesCounted (flush_bufs writer used rest) used wbh rest s c
          (flush_bufs-LeavesCounted used rest)
          (send_ranges writer wbh.wbh_file_offs (s.mem wbh.wbh_data) wbh.wbh_info s.world)

    pub flush_cache-LeavesCounted :
        (s : State W) → CountsFree s → LeavesCounted (flush_cache writer s)
    unfolding flush_cache
    flush_cache-LeavesCounted s c = flush_bufs-LeavesCounted s.wbc.wbufs_used s.wbc.bufs s c
