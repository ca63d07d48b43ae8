-- ===== src/Wbuf/View.antt =====
-- The contents that the cache stands for, read off at one position.
use anfs.Base.{
  ℕ, ◌+◌, ◌-◌, ◌≤◌, ◌<◌, ◌≡◌, refl, ◌∙◌, ◌&&◌, List, [], ◌∷◌, Bytes, overlay, overlay-slice, arith,
  leb, if◌then◌else◌,
}
use anfs.Wbuf.Info.{Wbufhdrinfo, IsSeparated, mbufsize, covers}
use anfs.Wbuf.Flush.{range_bytes}
use anfs.Wbuf.Flush.Contents.{with_ranges, with_bufs}
use anfs.Wbuf.State.{Wbufhdr}

-- One dirty range, written over `f`
range_at :
    (offs : ℕ) (bytes : Bytes) (wbi : Wbufhdrinfo) (f : Bytes) (k : ℕ)
    → overlay (offs + wbi.wbi_from) (range_bytes bytes wbi) f k ≡ (
        if leb offs k && (leb wbi.wbi_from (k - offs) && leb (k - offs) wbi.wbi_to)
        then bytes (k - offs)
        else f k)
range_at offs bytes wbi f k = ground (
  arith,
  overlay-slice bytes f offs wbi.wbi_from (wbi.wbi_to + 1 - wbi.wbi_from) k (offs + wbi.wbi_from)
      refl,
)

-- The ranges of one buffer, written over `f`: the bytes of the buffer where it is dirty.
pub with_ranges_at :
    (offs : ℕ) (bytes : Bytes) (infos : List Wbufhdrinfo) (low : ℕ) (f : Bytes) (k : ℕ)
    → IsSeparated low infos
    → with_ranges offs bytes infos f k
      ≡ (if leb offs k && covers infos (k - offs) then bytes (k - offs) else f k)
with_ranges_at offs bytes [] low f k s = ground arith
with_ranges_at offs bytes (wbi ∷ rest) low f k s = ground (
  arith,
  with_ranges_at offs bytes rest (wbi.wbi_to + 2)
      (overlay (offs + wbi.wbi_from) (range_bytes bytes wbi) f) k s.3,
  range_at offs bytes wbi f k,
)

-- The buffers lie behind one another, the first at `low` or behind.
abbrev pub AreApart : ℕ → List Wbufhdr → Type 0
AreApart low [] = Unit {0}
AreApart low (wbh ∷ rest) =
    (low ≤ wbh.wbh_file_offs)
    × IsSeparated 0 wbh.wbh_info
    × AreApart (wbh.wbh_file_offs + mbufsize) rest

-- A position in front of all buffers is not changed by them.
pub with_bufs_below :
    (mem : ℕ → Bytes) (bufs : List Wbufhdr) (low : ℕ) (f : Bytes) (k : ℕ)
    → AreApart low bufs
    → k < low
    → with_bufs mem bufs f k ≡ f k
with_bufs_below mem [] low f k a h = refl
with_bufs_below mem (wbh ∷ rest) low f k a h =
    with_bufs_below mem rest (wbh.wbh_file_offs + mbufsize) _ k a.2 (omega arith)
    ∙ with_ranges_at wbh.wbh_file_offs (mem wbh.wbh_data) wbh.wbh_info 0 f k a.1
    ∙ ground arith
