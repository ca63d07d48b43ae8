-- ===== src/Wbuf/Write/InBuffer.antt =====
-- A copy into a buffer that is in the cluster is a write to the file, as the program sees it.
use anfs.Base.{
  ℕ, ◌+◌, ◌-◌, ◌≤◌, ◌<◌, ◌≡◌, ◌≢◌, refl, sym, ◌∙◌, true, false, inl, inr, ◌&&◌, List, [], ◌∷◌, ◌++◌,
  length, Bytes, overlay, overlay_outside, overlay_inside, overlay_moved, arith, ◌==◌, leb, ltb,
  if◌then◌else◌, Bool-cases,
}
use anfs.Wbuf.Info.{IsSeparated, mbufsize, update_info}
use anfs.Wbuf.Info.Cover.{covers-update_info, update_info-IsSeparated}
use anfs.Wbuf.Flush.Contents.{with_ranges, with_bufs, with_bufs_local}
use anfs.Wbuf.View.{AreApart, with_ranges_at, with_bufs_below}
use anfs.Wbuf.State.{Wbufhdr, State}
use anfs.Wbuf.Write.{change_buf, copied}

-- No header here has the address `a` or the MBuf `d`.
abbrev pub AreOthers : (a d : ℕ) → List Wbufhdr → Type 0
AreOthers a d [] = Unit {0}
AreOthers a d (b ∷ rest) = (b.addr ≢ a) × (b.wbh_data ≢ d) × AreOthers a d rest

change_buf-append :
    (before after : List Wbufhdr) (wbh : Wbufhdr) (f : Wbufhdr → Wbufhdr)
    → AreOthers wbh.addr wbh.wbh_data before
    → change_buf wbh.addr f (before ++ wbh ∷ after) ≡ before ++ f wbh ∷ after
unfolding change_buf
change_buf-append [] after wbh f o = ground arith
change_buf-append (b ∷ before) after wbh f o =
    ground (arith, change_buf-append before after wbh f o.2)

pub with_bufs-append :
    (mem : ℕ → Bytes) (xs ys : List Wbufhdr) (f : Bytes)
    → with_bufs mem (xs ++ ys) f ≡ with_bufs mem ys (with_bufs mem xs f)
with_bufs-append mem [] ys f = refl
with_bufs-append mem (x ∷ xs) ys f = with_bufs-append mem xs ys _

AreApart-after :
    (before after : List Wbufhdr) (wbh : Wbufhdr) (low : ℕ)
    → AreApart low (before ++ wbh ∷ after)
    → IsSeparated 0 wbh.wbh_info × AreApart (wbh.wbh_file_offs + mbufsize) after
AreApart-after [] after wbh low a = (a.1, a.2)
AreApart-after (b ∷ before) after wbh low a = AreApart-after before after wbh _ a.2

-- The memory after a copy into the MBuf `d`
abbrev stored : (ℕ → Bytes) → ℕ → Bytes → ℕ → Bytes
stored mem d bytes e = if e == d then bytes else mem e

with_bufs-stored :
    (mem : ℕ → Bytes) (a d : ℕ) (bytes : Bytes) (xs : List Wbufhdr) (f : Bytes)
    → AreOthers a d xs
    → with_bufs (stored mem d bytes) xs f ≡ with_bufs mem xs f
with_bufs-stored mem a d bytes [] f o = refl
with_bufs-stored mem a d bytes (b ∷ rest) f o =
    let e : (b.wbh_data == d) ≡ false = ground (arith, o.1) in
    rw e (with_bufs-stored mem a d bytes rest _ o.2)

module _ (mem : ℕ → Bytes) (wbh : Wbufhdr) (offs : ℕ) (buf : List ℕ) where
  open wbh use {wbh_file_offs, wbh_data, wbh_info}

  -- One buffer before and after the copy
  with_ranges-copied :
      (f : Bytes) (k : ℕ)
      → IsSeparated 0 wbh_info
      → 0 < length buf
      → offs + length buf ≤ mbufsize
      → with_ranges wbh_file_offs
          (overlay offs buf (mem wbh_data))
          (update_info wbh_info offs (length buf))
          f
          k
        ≡ overlay (wbh_file_offs + offs) buf (with_ranges wbh_file_offs (mem wbh_data) wbh_info f) k
  with_ranges-copied f k s h b =
      let old = with_ranges wbh_file_offs (mem wbh_data) wbh_info f in
      let new = overlay offs buf (mem wbh_data) in
      let infos = update_info wbh_info offs (length buf) in
      let at_new =
        with_ranges_at wbh_file_offs new infos 0 f k
          (update_info-IsSeparated wbh_info offs (length buf) s h b) in
      let dirty = covers-update_info wbh_info offs (length buf) (k - wbh_file_offs) s h in
      elim (Bool-cases
        (leb (wbh_file_offs + offs) k && ltb k (wbh_file_offs + offs + length buf))) [
          | inl inside ↦
              at_new
              ∙ ground
                  (arith, dirty, overlay_moved wbh_file_offs offs buf (mem wbh_data) old k inside)
          | inr outside ↦
              at_new
              ∙ ground (
                arith,
                dirty,
                with_ranges_at wbh_file_offs (mem wbh_data) wbh_info 0 f k s,
                overlay_outside offs buf (mem wbh_data) (k - wbh_file_offs),
                overlay_outside (wbh_file_offs + offs) buf old k outside,
              )
        ]

  -- The buffers behind it do not reach into the copied bytes.
  with_bufs-overlay :
      (after : List Wbufhdr) (f : Bytes) (k : ℕ)
      → AreApart (wbh_file_offs + mbufsize) after
      → offs + length buf ≤ mbufsize
      → with_bufs mem after (overlay (wbh_file_offs + offs) buf f) k
        ≡ overlay (wbh_file_offs + offs) buf (with_bufs mem after f) k
  with_bufs-overlay after f k a b =
      let pos = wbh_file_offs + offs in
      elim (Bool-cases (leb pos k && ltb k (pos + length buf))) [
        | inl inside ↦
            with_bufs_below mem after (wbh_file_offs + mbufsize) _ k a (ground arith)
            ∙ overlay_inside pos buf _ _ k inside
        | inr outside ↦
            with_bufs_local mem after _ _ k (overlay_outside pos buf f k outside)
            ∙ sym (overlay_outside pos buf _ k outside)
      ]

  -- The whole cluster before and after the copy
  with_bufs-copied :
      (before after : List Wbufhdr) (low : ℕ) (f : Bytes) (k : ℕ)
      → AreApart low (before ++ wbh ∷ after)
      → AreOthers wbh.addr wbh_data before
      → AreOthers wbh.addr wbh_data after
      → 0 < length buf
      → offs + length buf ≤ mbufsize
      → with_bufs
          (stored mem wbh_data (overlay offs buf (mem wbh_data)))
          (before ++ record wbh { wbh_info = update_info wbh_info offs (length buf) } ∷ after)
          f
          k
        ≡ overlay (wbh_file_offs + offs) buf (with_bufs mem (before ++ wbh ∷ after) f) k
  with_bufs-copied before after low f k a o p h b =
      let (sep, apart) = AreApart-after before after wbh low a in
      let self : (wbh_data == wbh_data) ≡ true = ground arith in
      let g = with_bufs mem before f in
      rw
        (
          with_bufs-append (stored mem wbh_data (overlay offs buf (mem wbh_data))) before _ f,
          with_bufs-append mem before (wbh ∷ after) f,
          with_bufs-stored mem wbh.addr wbh_data (overlay offs buf (mem wbh_data)) before f o,
          with_bufs-stored mem wbh.addr wbh_data (overlay offs buf (mem wbh_data)) after _ p,
          self,
        )
        (with_bufs_local mem after _ _ k (with_ranges-copied g k sep h b)
          ∙ with_bufs-overlay after (with_ranges wbh_file_offs (mem wbh_data) wbh_info g) k apart b)

-- The part of `WBufWrite` that copies: if the buffer at hand is in a cluster whose buffers lie
-- behind one another with their own headers and MBufs, and the bytes fit into it from the position
-- of the cluster on, then the file with the cached bytes over it is the one before with these bytes
-- written at that position, and the position is moved behind them.
pub with_bufs-copied_state :
    {W : Type 0} (s : State W) (before after : List Wbufhdr) (wbh : Wbufhdr) (offs low : ℕ)
    (buf : List ℕ) (f : Bytes)
    → s.wbc.bufs ≡ before ++ wbh ∷ after
    → AreApart low (before ++ wbh ∷ after)
    → AreOthers wbh.addr wbh.wbh_data before
    → AreOthers wbh.addr wbh.wbh_data after
    → s.wbc.file_pos ≡ wbh.wbh_file_offs + offs
    → 0 < length buf
    → offs + length buf ≤ mbufsize
    → ((k : ℕ)
        → with_bufs (copied wbh offs buf s).mem (copied wbh offs buf s).wbc.bufs f k
          ≡ overlay s.wbc.file_pos buf (with_bufs s.mem s.wbc.bufs f) k)
      × ((copied wbh offs buf s).wbc.file_pos ≡ s.wbc.file_pos + length buf)
unfolding copied
with_bufs-copied_state s before after wbh offs low buf f e a o p at_pos h b = (
  λ k.
      rw (at_pos, e, change_buf-append before after wbh _ o)
        (with_bufs-copied s.mem wbh offs buf before after low f k a o p h b),
  refl,
)
