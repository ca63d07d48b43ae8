-- ===== src/Rbuf/Coherent.antt =====
-- The read-ahead buffer holds bytes of the file, and a read through it gives bytes of the file.
use anfs.Base.{
  ℕ, ◌+◌, ◌-◌, ◌≤◌, ◌<◌, min, ◌≡◌, refl, sym, ap, ◌∙◌, inl, inr, true, ◌||◌, ◌&&◌, Option, none,
  some, List, [], ◌∷◌, ◌++◌, length, take, Bytes, slice, length-slice, slice-append, slice-overlay,
  take-slice, slice_part, length-append, length-take, ltb, leb, arith, Bool-cases,
}
use anfs.Nfs.MRead.{Reading}
use anfs.Nfs.MRead.Contents.{Reads}
use anfs.Mbuf.{release_mbuf}
use anfs.Wbuf.Info.{mbufsize}
use anfs.Rbuf.{
  Rbufhdr, RState, Run, done, failed, fault, rbufferlimit, release_rbuf_data, buffered, refilled,
  direct,
}

-- The bytes in the MBuf of the header are those of the file `f` at its place.
abbrev pub HasBytes : Bytes → (ℕ → Bytes) → (offs len : ℕ) → Option ℕ → Type 0
HasBytes f mem offs len none = Unit {0}
HasBytes f mem offs len (some a) = slice (mem a) 0 len ≡ slice f offs len

abbrev pub IsCoherent : Bytes → (ℕ → Bytes) → Option Rbufhdr → Type 0
IsCoherent f mem none = Unit {0}
IsCoherent f mem (some rbh) = HasBytes f mem rbh.rbh_file_offs rbh.rbh_data_len rbh.rbh_data

-- The MBufs that a header holds
abbrev pub held : Option Rbufhdr → ℕ
held none = 0
held (some rbh) = elim rbh.rbh_data [ none ↦ 0 | some a ↦ 1 ]

module _ {W : Type 0} (contents : W → Bytes) (size : W → ℕ) where
  -- The buffer agrees with the file `f`, which is as it was, and `free` MBufs are free or held.
  abbrev pub IsKept : Bytes → (z free : ℕ) → RState W → Type 0
  IsKept f z free t =
      (contents t.world ≡ f)
      × (size t.world ≡ z)
      × IsCoherent f t.mem t.rbuf
      × (held t.rbuf + t.mbufs.num_free_mbufs ≡ free)

  -- The outcome of a read of `num` bytes at `pos`
  abbrev pub ReadsBuf : Bytes → (z free pos num : ℕ) → Run W → Type 0
  ReadsBuf f z free pos num (done bs t) =
      IsKept f z free t
      × (bs ≡ slice f pos (length bs))
      × (length bs ≤ num)
      × (t.file_pos ≡ pos + length bs)
      × ((leb num (length bs) || leb z (pos + length bs)) ≡ true)
  ReadsBuf f z free pos num (failed e t) = IsKept f z free t × (t.file_pos ≡ pos)
  ReadsBuf f z free pos num fault = ⊥

  pub direct-ReadsBuf :
      (f : Bytes) (z free num : ℕ) (s : RState W) (r : Reading W)
      → 0 < num
      → held s.rbuf ≡ 0
      → IsCoherent f s.mem s.rbuf
      → s.mbufs.num_free_mbufs ≡ free
      → Reads contents size f z s.file_pos num r
      → ReadsBuf f z free s.file_pos num (direct s r)
  unfolding direct
  direct-ReadsBuf f z free num s (Reading.done w bs n) p h c e (ec, ez, sl, le, si, eof) =
      ((ec, ez, c, omega arith), sl, le, refl, eof)
  direct-ReadsBuf f z free num s (Reading.failed w x) p h c e (ec, ez) =
      ((ec, ez, c, omega arith), refl)
  direct-ReadsBuf f z free num s Reading.undefined p h c e r = absurd (omega arith)
  direct-ReadsBuf f z free num s Reading.stuck p h c e r = elim r [ ]

  -- What stands in `Buf` is a first part of the bytes that are wanted.
  joined :
      (f : Bytes) (pos l : ℕ) (got bs : List ℕ)
      → got ≡ slice f pos (length got)
      → bs ≡ slice f (pos + length got) (length bs)
      → got ++ take l bs ≡ slice f pos (length (got ++ take l bs))
  joined f pos l got bs g b =
      let n : length (got ++ take l bs) ≡ length got + min l (length bs) =
        omega (arith, length-append got (take l bs), length-take l bs) in
      let part : take l bs ≡ slice f (pos + length got) (min l (length bs)) =
        ap (take l) b ∙ take-slice f (pos + length got) (length bs) l in
      ap (λ x. x ++ take l bs) g
      ∙ ap (slice f pos (length got) ++◌) part
      ∙ sym (slice-append f pos (length got) (min l (length bs)))
      ∙ ap (slice f pos) (sym n)

  pub refilled-ReadsBuf :
      (f : Bytes) (z free : ℕ) (rbh : Rbufhdr) (a pos : ℕ) (got : List ℕ) (num : ℕ) (s : RState W)
      (r : Reading W)
      → got ≡ slice f pos (length got)
      → length got < num
      → num ≤ rbufferlimit
      → s.file_pos ≡ pos
      → s.mbufs.num_free_mbufs + 1 ≡ free
      → Reads contents size f z (pos + length got) mbufsize r
      → ReadsBuf f z free pos num (refilled rbh a got (pos + length got) (num - length got) s r)
  unfolding refilled release_rbuf_data release_mbuf
  refilled-ReadsBuf f z free rbh a pos got num s (Reading.done w [] n) g l lim at e
        (ec, ez, sl, le, si, eof) =
      ((ec, ez, tt, omega arith), g, omega arith, refl, ground arith)
  refilled-ReadsBuf f z free rbh a pos got num s (Reading.done w (b ∷ bs) n) g l lim at e
        (ec, ez, sl, le, si, eof) =
      let left : ℕ = min (length (b ∷ bs)) (num - length got) in
      let n' : length (got ++ take left (b ∷ bs)) ≡ length got + left =
        omega (arith, length-append got (take left (b ∷ bs)), length-take left (b ∷ bs)) in
      (
        (ec, ez, ground (arith, slice-overlay 0 (b ∷ bs) (s.mem a)), omega arith),
        joined f pos left got (b ∷ bs) g sl,
        omega arith,
        omega arith,
        ground arith,
      )
  refilled-ReadsBuf f z free rbh a pos got num s (Reading.failed w x) g l lim at e (ec, ez) =
      ((ec, ez, tt, omega arith), at)
  refilled-ReadsBuf f z free rbh a pos got num s Reading.undefined g l lim at e r =
      absurd (omega (arith, r))
  refilled-ReadsBuf f z free rbh a pos got num s Reading.stuck g l lim at e r = elim r [ ]

  pub buffered-slice :
      (f : Bytes) (rbh : Rbufhdr) (a num : ℕ) (s : RState W)
      → slice (s.mem a) 0 rbh.rbh_data_len ≡ slice f rbh.rbh_file_offs rbh.rbh_data_len
      → (buffered rbh a num s ≡ slice f s.file_pos (length (buffered rbh a num s)))
        × (length (buffered rbh a num s) ≤ num)
  unfolding buffered slice
  buffered-slice f rbh a num s e =
      let rbh_file_offs : ℕ = rbh.rbh_file_offs in
      let rbh_data_len : ℕ = rbh.rbh_data_len in
      let end : ℕ = rbh_file_offs + rbh_data_len in
      elim (Bool-cases (leb rbh_file_offs s.file_pos && ltb s.file_pos end)) [
        | inr out ↦ rw (out, buffered) (refl, omega arith)
        | inl here ↦
            let n : ℕ = min num (end - s.file_pos) in
            let k : ℕ = s.file_pos - rbh_file_offs in
            let len = length-slice (s.mem a) k n in
            let part = slice_part (s.mem a) f 0 rbh_file_offs rbh_data_len k n e (ground arith) in
            rw (here, buffered)
              (
                ap (λ x. slice (s.mem a) x n) (omega arith)
                    ∙ part
                    ∙ ap (λ x. slice f x n) (ground arith)
                    ∙ ap (slice f s.file_pos) (sym len),
                omega arith,
              )
      ]
