-- ===== src/File/Writes.antt =====
-- `act_WRITE` past the write cache, and the read behind it.
use anfs.Base.{
  ℕ, ◌+◌, ◌^◌, ◌<◌, ◌≡◌, ◌≢◌, refl, sym, ap, ◌∙◌, inl, inr, true, false, ◌&&◌, none, some, List, [],
  ◌∷◌, length, Bytes, overlay, ltb, leb, pos, negsuc, arith, Bool-cases, Option-cases,
}
use mathlib.Core.Path.{subst, subst₂}
use anfs.Wbuf.State.{Run, ok, err, fault}
use anfs.Wbuf.Flush.{Writer}
use anfs.Wbuf.Flush.Contents.{with_bufs, AreValid}
use anfs.Wbuf.WriteCache.{write_cache}
use anfs.Wbuf.WriteCache.Direct.{
  WritesThrough, flush_cache_and_write-WritesThrough, direct-WritesThrough,
}
use anfs.Rbuf.{Rbufhdr, buffered_r_data, release_buffered, release_rbuf_data}
use anfs.File.{
  OpenFile, Answer, answer, no_handle, crash, to_r_state, release_read, write_result, write_bytes,
  write_file, act_write, may_write,
}
use anfs.File.Reads.{IsOpen, visible}

-- What the release of read bytes leaves as it is
pub record SameFile {W : Type 0} (f f' : OpenFile W) : Type 0 where
  pub same_world : f'.state.world ≡ f.state.world
  pub same_mem : f'.state.mem ≡ f.state.mem
  pub same_wbc : f'.state.wbc ≡ f.state.wbc
  pub same_efh : f'.efh ≡ f.efh
  pub same_wbuf : f'.has_wbuf ≡ f.has_wbuf
  pub unread : buffered_r_data (to_r_state f') ≡ none

pub release_read-SameFile : {W : Type 0} → (f : OpenFile W) → SameFile f (release_read f)
unfolding release_read release_buffered buffered_r_data release_rbuf_data
release_read-SameFile f = elim (Option-cases f.rbuf) [
  | inl no_header ↦ rw no_header (record {
    same_world = refl;
    same_mem = refl;
    same_wbc = refl;
    same_efh = refl;
    same_wbuf = refl;
    unread = refl;
  })
  | inr (rbh, e) ↦ elim (Option-cases rbh.rbh_data) [
    | inl no_bytes ↦ ground arith
    | inr (a, d) ↦ ground arith
  ]
]

module _ {W : Type 0} (writer : Writer W) where
  open writer use {contents}

  -- The outcome of a write of `buf` at a position of a file that the program sees as `v`, past the
  -- cache
  abbrev pub Stores : (v : Bytes) → (at : ℕ) → (buf : List ℕ) → Answer W → Type 0
  Stores v at buf (answer res1 none bs f) =
      (res1 ≡ pos (length buf))
      × (f.efh.efh_file_pos ≡ at + length buf)
      × (f.state.wbc.bufs ≡ [])
      × ((k : ℕ) → contents f.state.world k ≡ overlay at buf v k)
      × (buffered_r_data (to_r_state f) ≡ none)
  Stores v at buf (answer res1 (some e) bs f) =
      (res1 ≡ negsuc 0)
      × (f.efh.efh_file_pos ≡ at)
      × (f.state.wbc.bufs ≡ [])
      × (buffered_r_data (to_r_state f) ≡ none)
  Stores v at buf (no_handle r e) = ⊥
  Stores v at buf crash = ⊥

  write_result-Stores :
      (v : Bytes) (buf : List ℕ) (f : OpenFile W) (r : Run W (ℕ × ℕ))
      → buffered_r_data (to_r_state f) ≡ none
      → WritesThrough writer v f.efh.efh_file_pos buf r
      → Stores v f.efh.efh_file_pos buf (write_result f r)
  unfolding write_result buffered_r_data
  write_result-Stores v buf f (ok (num, len) s) u h =
      (ap pos h.0, ap (λ n. f.efh.efh_file_pos + n) h.0, h.1, h.2, u)
  write_result-Stores v buf f (err e s) u h = (refl, refl, h, u)
  write_result-Stores v buf f fault u h = elim h [ ]

  module _ (limit : ℕ) where
    -- The write of `buf` goes past the cache: the handle has none, or the write is too large for it.
    abbrev pub GoesPast : OpenFile W → List ℕ → Type 0
    GoesPast f buf = (f.has_wbuf && leb (length buf) limit) ≡ false

    cache-WritesThrough :
        (buf : List ℕ) (f : OpenFile W)
        → buf ≢ []
        → f.efh.efh_file_pos + length buf < 2 ^ 32
        → f.state.wbc.wbufs_used ≡ length f.state.wbc.bufs
        → AreValid f.state.wbc.bufs
        → (f.has_wbuf ≡ false → f.state.wbc.bufs ≡ [])
        → GoesPast f buf
        → WritesThrough writer
            (visible contents f)
            f.efh.efh_file_pos
            buf
            (write_cache writer f.has_wbuf limit f.efh.efh_file_pos f.efh.efh_file_len buf f.state)
    unfolding write_cache
    cache-WritesThrough buf f ne fits counted valid no_cache past = elim (Bool-cases f.has_wbuf) [
      | inr absent ↦
          rw (absent, write_cache)
            (direct-WritesThrough writer _ f.efh.efh_file_pos buf f.state ne fits (no_cache absent)
              (λ k.
                ap (λ bs. with_bufs f.state.mem bs (contents f.state.world) k)
                  (sym (no_cache absent))))
      | inl attached ↦
          let large : ltb limit (length buf) ≡ true = ground arith in
          rw (attached, large, write_cache)
            (flush_cache_and_write-WritesThrough writer f.efh.efh_file_pos buf f.state ne fits
              counted valid)
    ]

    write_bytes-Stores :
        (b : ℕ) (bs : List ℕ) (f : OpenFile W)
        → f.efh.efh_file_pos + length (b ∷ bs) < 2 ^ 32
        → f.state.wbc.wbufs_used ≡ length f.state.wbc.bufs
        → AreValid f.state.wbc.bufs
        → (f.has_wbuf ≡ false → f.state.wbc.bufs ≡ [])
        → GoesPast f (b ∷ bs)
        → buffered_r_data (to_r_state f) ≡ none
        → Stores
            (visible contents f)
            f.efh.efh_file_pos
            (b ∷ bs)
            (write_bytes writer limit (b ∷ bs) f)
    unfolding write_bytes
    write_bytes-Stores b bs f fits counted valid no_cache past u =
        write_result-Stores _ (b ∷ bs) f _ u (
          cache-WritesThrough (b ∷ bs) f (λ e. absurd (omega (arith, ap length e))) fits counted
            valid no_cache past)

    released-Stores :
        (b : ℕ) (bs : List ℕ) (rbh : Rbufhdr) (f f' : OpenFile W)
        → SameFile f f'
        → f.efh.efh_file_pos + length (b ∷ bs) < 2 ^ 32
        → IsOpen contents rbh f
        → GoesPast f (b ∷ bs)
        → Stores
            (visible contents f)
            f.efh.efh_file_pos
            (b ∷ bs)
            (write_bytes writer limit (b ∷ bs) f')
    released-Stores b bs rbh f f' s fits o past =
        let at = ap (λ e. e.efh_file_pos) s.same_efh in
        let v : visible contents f' ≡ visible contents f =
          ap (λ m. with_bufs m f'.state.wbc.bufs (contents f'.state.world)) s.same_mem
          ∙ ap (λ c. with_bufs f.state.mem c.bufs (contents f'.state.world)) s.same_wbc
          ∙ ap (λ w. with_bufs f.state.mem f.state.wbc.bufs (contents w)) s.same_world in
        subst₂ (λ v a. Stores v a (b ∷ bs) (write_bytes writer limit (b ∷ bs) f')) v at
          (write_bytes-Stores b bs f' (omega (arith, at))
            (subst (λ c. c.wbufs_used ≡ length c.bufs) (sym s.same_wbc) o.counted)
            (subst (λ c. AreValid c.bufs) (sym s.same_wbc) o.valid)
            (λ h. ap (λ c. c.bufs) s.same_wbc ∙ o.no_cache (sym s.same_wbuf ∙ h))
            (ap (λ h. h && leb (length (b ∷ bs)) limit) s.same_wbuf ∙ past) s.unread)

    -- `act_WRITE` of some bytes, on an open handle that may be written and has no error to report,
    -- where the write goes past the cache. If it succeeds, the result is the number of bytes, the
    -- position moves behind them, and the server has the file as the program saw it with the bytes
    -- over it: those that were in the cache before are not lost, and lie below the new ones. If it
    -- fails, the result is -1 and the position stays. In both cases the cache is empty, no byte is kept
    -- for reading, and no pointer is used that is not valid. The end of the bytes must fit in
    -- 32 bits.
    pub act_write-Stores :
        (b : ℕ) (bs : List ℕ) (rbh : Rbufhdr) (f : OpenFile W)
        → f.efh.efh_file_pos + length (b ∷ bs) < 2 ^ 32
        → may_write f.efh_mode ≡ true
        → f.efh_res2 ≡ none
        → IsOpen contents rbh f
        → GoesPast f (b ∷ bs)
        → Stores
            (visible contents f)
            f.efh.efh_file_pos
            (b ∷ bs)
            (act_write writer limit (b ∷ bs) (some f))
    unfolding act_write write_file
    act_write-Stores b bs rbh f fits mode no_error o past =
        rw (no_error, mode, act_write, write_file)
          (released-Stores b bs rbh f (release_read f) (release_read-SameFile f) fits o past)
