-- ===== src/Wbuf/WriteCache.antt =====
-- `FlushCacheAndWrite` and `wc_WriteCache` of src/wbuf.c. The position and the length of the file
-- handle, `efh_FilePos` and `efh_FileLen`, are arguments; the new length is returned.
pub mod Direct
use anfs.Base.{
  ℕ, zero, suc, ◌+◌, ◌-◌, ◌/◌, Bool, true, false, ◌||◌, Option, none, some, List, [], ◌∷◌, length,
  drop, ltb, if◌then◌else◌,
}
use anfs.Nfs.MWrite.{Writing}
use anfs.Wbuf.Info.{mbufsize}
use anfs.Wbuf.State.{State, Run, ok, err, fault, M, pure, get, ◌>>=◌, ◌>>◌, wbufs_avail}
use anfs.Wbuf.Flush.{Writer, flush_cache}
use anfs.Wbuf.Write.{has_buffered_data, seek_and_prepare, wbuf_write}

-- What `FlushCacheAndWrite` makes of the write that follows the flush: the length and `*FileLen`
pub written : {W : Type 0} → Writing W → M W (ℕ × ℕ)
written (Writing.done w n size) s = ok (n, size) (record s { world = w })
written (Writing.failed w e) s = err e (record s { world = w })
written Writing.undefined s = fault
written Writing.stuck s = fault

module _ {W : Type 0} (writer : Writer W) where
  -- The direct write
  pub direct_write : (file_pos : ℕ) → List ℕ → M W (ℕ × ℕ)
  direct_write file_pos buf s = written (writer.nfs_write s.world file_pos buf) s

  -- `FlushCacheAndWrite`
  unfoldable pub flush_cache_and_write : (file_pos : ℕ) → List ℕ → M W (ℕ × ℕ)
  unfolding written direct_write
  flush_cache_and_write file_pos buf = do
    s ← get
    if has_buffered_data s then flush_cache writer else pure tt
    direct_write file_pos buf

  -- The loop of `wc_WriteCache`: `some rest` is what is left when there is "no mem".
  pub write_rounds : ℕ → List ℕ → M W (Option (List ℕ))
  write_rounds zero buf s = fault
  write_rounds (suc fuel) [] s = ok none s
  write_rounds (suc fuel) (b ∷ buf) s = elim (wbuf_write writer (b ∷ buf) s) [
    | ok (some cnt) t ↦ write_rounds fuel (drop cnt (b ∷ buf)) t
    | ok none t ↦ ok (some (b ∷ buf)) t
    | err e t ↦ err e t
    | fault ↦ fault
  ]

  -- The write to the cache, once it is known to be small enough
  pub write_buffered : (file_pos file_len : ℕ) → List ℕ → M W (ℕ × ℕ)
  unfolding write_rounds flush_cache_and_write
  write_buffered file_pos file_len buf = do
    prepared ← seek_and_prepare writer file_pos
    if prepared
        then (do
          left ← write_rounds (length buf + 1) buf
          s ← get
          elim left [
            | some rest ↦ flush_cache_and_write file_pos rest
            | none ↦
                pure (length buf, if ltb file_len s.wbc.file_pos then s.wbc.file_pos else file_len)
          ])
        else flush_cache_and_write file_pos buf

  -- `wc_WriteCache`; `attached` says that the file handle has a cache.
  unfoldable pub write_cache :
      (attached : Bool) → (write_buffer_limit file_pos file_len : ℕ) → List ℕ → M W (ℕ × ℕ)
  unfolding write_buffered flush_cache_and_write
  write_cache false limit file_pos file_len buf = direct_write file_pos buf
  write_cache true limit file_pos file_len buf = do
    s ← get
    let bufs_needed = (length buf + mbufsize - 1) / mbufsize
    if ltb limit (length buf)
          || ltb s.wbc.wbufs_max bufs_needed
          || ltb (s.wbc.wbufs_used + wbufs_avail s) bufs_needed
        then flush_cache_and_write file_pos buf
        else write_buffered file_pos file_len buf
