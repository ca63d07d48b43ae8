-- ===== src/File/Reads.antt =====
-- `act_READ` gives the bytes that the program sees, those in the write cache included.
use anfs.Base.{
  ℕ, suc, ◌+◌, ◌^◌, ◌<◌, ◌≤◌, ◌≡◌, refl, sym, ap, ◌∙◌, fun_ext, inl, inr, ◌⊎◌, true, false, ◌&&◌,
  ◌||◌, not, Option, none, some, List, [], ◌∷◌, length, Bytes, slice, ◌==◌, leb, pos, negsuc, arith,
  Bool-cases,
}
use mathlib.Core.Path.{subst}
use anfs.Nfssupp.{IoErr}
use anfs.Nfs.Calls.{Rpc, Server}
use anfs.Wbuf.Info.{mbufsize}
use anfs.Wbuf.State.{Wbufhdr, Run, ok, err, fault}
use anfs.Wbuf.Flush.{Writer}
use anfs.Wbuf.Flush.Contents.{with_bufs, AreValid, Flushes, flush_cache-Flushes}
use anfs.Wbuf.Flush.Pool.{CountsFree, LeavesCounted, flush_cache-LeavesCounted}
use anfs.Rbuf
use anfs.Rbuf.{Rbufhdr, RState, read_buf}
use anfs.Rbuf.Coherent.{IsCoherent, ReadsBuf}
use anfs.Rbuf.Reads.{read_buf-ReadsBuf}
use anfs.File.{
  OpenFile, Answer, answer, no_handle, crash, has_buffered_w_data, set_state, to_r_state,
  read_result, read_some, read_num, read_flushed, read_file, act_read, may_read,
}

-- The handle has a read-ahead buffer, the cluster counts its buffers, which are valid, a handle
-- without a cache has none, and no bytes are buffered for reading while some are for writing.
pub record IsOpen {W : Type 0} (contents : W → Bytes) (rbh : Rbufhdr) (f : OpenFile W)
    : Type 0 where
  pub counted : f.state.wbc.wbufs_used ≡ length f.state.wbc.bufs
  pub valid : AreValid f.state.wbc.bufs
  pub no_cache : f.has_wbuf ≡ false → f.state.wbc.bufs ≡ []
  pub header : f.rbuf ≡ some rbh
  pub coherent : IsCoherent (contents f.state.world) f.state.mem (some rbh)
  pub one_kind : (f.state.wbc.bufs ≡ []) ⊎ (rbh.rbh_data ≡ none)
  pub pool : CountsFree f.state

-- The contents of the file as the program sees them
abbrev pub visible : {W : Type 0} → (W → Bytes) → OpenFile W → Bytes
visible contents f = with_bufs f.state.mem f.state.wbc.bufs (contents f.state.world)

pub no_bufs_of_empty :
    {W : Type 0}
    → (f : OpenFile W) → f.state.wbc.wbufs_used ≡ length f.state.wbc.bufs
    → (f.has_wbuf ≡ false → f.state.wbc.bufs ≡ [])
    → has_buffered_w_data f ≡ false
    → f.state.wbc.bufs ≡ []
no_bufs_of_empty f c n h = elim (Bool-cases f.has_wbuf) [
  | inr absent ↦ n absent
  | inl yes_wbuf ↦ empty f.state.wbc.bufs (ground arith)
]
  where
    empty : (bufs : List Wbufhdr) → length bufs ≡ 0 → bufs ≡ []
    empty [] e = refl
    empty (b ∷ bs) e = absurd (omega arith)

module _ {W : Type 0} (rpc : Rpc W) (server : Server rpc) (max_read_size : ℕ) where
  open server use {contents, size}

  -- The outcome of a read of `num` bytes at `at` from a file that the program sees as `v`, with the
  -- length that the handle remembers
  abbrev pub Sees : (v : Bytes) → (len at num : ℕ) → Answer W → Type 0
  Sees v len at num (answer res1 none bs f) =
      (res1 ≡ pos (length bs))
      × (bs ≡ slice v at (length bs))
      × (length bs ≤ num)
      × (f.efh.efh_file_pos ≡ at + length bs)
      × (f.state.wbc.bufs ≡ [])
      × (contents f.state.world ≡ v)
      × ((leb num (length bs) || leb (size f.state.world) (at + length bs) || len == at) ≡ true)
  Sees v len at num (answer res1 (some e) bs f) =
      (res1 ≡ negsuc 0) × (bs ≡ []) × (f.efh.efh_file_pos ≡ at) × (f.state.wbc.bufs ≡ [])
  Sees v len at num (no_handle r e) = ⊥
  Sees v len at num crash = ⊥

  read_result-Sees :
      (z free num : ℕ) (f : OpenFile W) (r : Rbuf.Run W)
      → f.state.wbc.bufs ≡ []
      → ReadsBuf contents size (contents f.state.world) z free f.efh.efh_file_pos num r
      → Sees (contents f.state.world) f.efh.efh_file_len f.efh.efh_file_pos num (read_result f r)
  unfolding read_result
  read_result-Sees z free num f (Rbuf.Run.done bs t) b h =
      (refl, h.1, h.2, h.3, b, h.0.0, ground (arith, h.4, h.0.1))
  read_result-Sees z free num f (Rbuf.Run.failed e t) b h = (refl, refl, h.1, b)
  read_result-Sees z free num f Rbuf.Run.fault b h = elim h [ ]

  read_some-Sees :
      (n : ℕ) (g_res2 : Option IoErr) (writer : Writer W) (rbh : Rbufhdr) (f : OpenFile W)
      → 0 < max_read_size
      → f.efh.efh_file_pos + suc n + mbufsize < 2 ^ 32
      → f.rbuf ≡ some rbh
      → IsCoherent (contents f.state.world) f.state.mem (some rbh)
      → CountsFree f.state
      → f.state.wbc.bufs ≡ []
      → Sees
          (contents f.state.world)
          f.efh.efh_file_len
          f.efh.efh_file_pos
          (suc n)
          (read_some writer rpc max_read_size g_res2 (suc n) f)
  unfolding read_some slice
  read_some-Sees n g_res2 writer rbh f m fits header c counted b =
      elim (Bool-cases
        (not (f.efh.efh_file_len == 0) && f.efh.efh_file_len == f.efh.efh_file_pos)) [
          | inl end ↦
              rw (end, read_some) (refl, refl, omega arith, omega arith, b, refl, ground arith)
          | inr more ↦
              rw (more, read_some)
                (read_result-Sees (size f.state.world) _ (suc n) f _ b (
                  read_buf-ReadsBuf rpc server max_read_size rbh (suc n) (to_r_state f) m
                    (omega arith) fits header c counted))
        ]

  module _ (writer : Writer W) (same : writer.contents ≡ contents) (g_res2 : Option IoErr)
      (rbh : Rbufhdr) where
    read_flushed-Sees :
        (n : ℕ) (f : OpenFile W) (r : Run W (Unit {0}))
        → 0 < max_read_size
        → f.efh.efh_file_pos + suc n + mbufsize < 2 ^ 32
        → f.rbuf ≡ some rbh
        → rbh.rbh_data ≡ none
        → Flushes writer f.state.wbc.bufs f.state r
        → LeavesCounted r
        → Sees
            (visible contents f)
            f.efh.efh_file_len
            f.efh.efh_file_pos
            (suc n)
            (read_flushed writer rpc max_read_size g_res2 (pos (suc n)) f r)
    unfolding read_flushed read_num
    read_flushed-Sees n f (ok a s) m fits header unread (returned, stored) counted =
        let now : contents s.world ≡ visible contents f =
          sym (ap (λ c. c s.world) same)
          ∙ fun_ext stored
          ∙ ap (λ c. with_bufs f.state.mem f.state.wbc.bufs (c f.state.world)) same in
        subst
          (λ v.
            Sees v f.efh.efh_file_len f.efh.efh_file_pos (suc n)
              (read_some writer rpc max_read_size g_res2 (suc n) (set_state f s)))
          now
          (read_some-Sees n g_res2 writer rbh (set_state f s) m fits header (rw unread tt) counted
            returned.no_bufs)
    read_flushed-Sees n f (err e s) m fits header unread returned counted =
        (refl, refl, refl, returned.no_bufs)
    read_flushed-Sees n f fault m fits header unread h counted = elim h [ ]

    unread_of_buffered :
        (f : OpenFile W)
        → IsOpen contents rbh f
        → has_buffered_w_data f ≡ true
        → rbh.rbh_data ≡ none
    unread_of_buffered f o h = elim o.one_kind [
      | inr unread ↦ unread
      | inl empty ↦
          absurd (let zero_used = o.counted ∙ ap length empty in ground (arith, zero_used))
    ]

    -- `act_READ` of a positive number of bytes, on an open handle that may be read and has no error to
    -- report. If it succeeds, it gives bytes of the file as the program sees it, with those that were
    -- only in the write cache, from the position on: all that are wanted, or fewer where the file ends
    -- or the position is the length that the handle remembers. It moves the position behind them, and
    -- the server has the bytes of the cache then. If it fails, the result is -1 and the position
    -- stays. In both cases the cache is empty, and no pointer is used that is not valid. The premises
    -- are that the function that sends bytes and the server mean the same contents, that the
    -- largest read is not 0, and that the position behind the bytes and a further buffer fits in
    -- 32 bits.
    pub act_read-Sees :
        (n : ℕ) (f : OpenFile W)
        → 0 < max_read_size
        → f.efh.efh_file_pos + suc n + mbufsize < 2 ^ 32
        → may_read f.efh_mode ≡ true
        → f.efh_res2 ≡ none
        → IsOpen contents rbh f
        → Sees
            (visible contents f)
            f.efh.efh_file_len
            f.efh.efh_file_pos
            (suc n)
            (act_read writer rpc max_read_size g_res2 (pos (suc n)) (some f))
    unfolding act_read read_file
    act_read-Sees n f m fits mode no_error o = elim (Bool-cases (has_buffered_w_data f)) [
      | inl dirty ↦
          rw (no_error, mode, dirty, act_read, read_file)
            (read_flushed-Sees n f _ m fits o.header (unread_of_buffered f o dirty)
              (flush_cache-Flushes writer f.state o.counted o.valid)
              (flush_cache-LeavesCounted writer f.state o.pool))
      | inr clean ↦
          let empty = no_bufs_of_empty f o.counted o.no_cache clean in
          rw (no_error, mode, clean, act_read, read_file)
            (subst
              (λ v.
                Sees v f.efh.efh_file_len f.efh.efh_file_pos (suc n)
                  (read_num writer rpc max_read_size g_res2 (pos (suc n)) f))
              (ap (λ bs. with_bufs f.state.mem bs (contents f.state.world)) (sym empty))
              (read_some-Sees n g_res2 writer rbh f m fits o.header o.coherent o.pool empty))
    ]
