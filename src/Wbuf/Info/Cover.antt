-- ===== src/Wbuf/Info/Cover.antt =====
-- `update_info` adds exactly the new range.
use anfs.Base.{ℕ, ◌+◌, ◌-◌, ◌≤◌, ◌<◌, min, max, ◌≡◌, ◌&&◌, ◌||◌, List, [], ◌∷◌, arith, ltb, leb}
use anfs.Wbuf.Info.{
  Wbufhdrinfo, mbufsize, melt_end, do_melt, merge, insert_info, update_info, covers, IsSeparated,
}

module _ (to from k : ℕ) where
  melt_end-covers :
      (last nwbi : Wbufhdrinfo) (rest : List Wbufhdrinfo)
      → IsSeparated (last.wbi_to + 2) (nwbi ∷ rest)
      → from ≤ last.wbi_to
      → last.wbi_to ≤ to
      → ((leb from k && leb k (max to (melt_end to last nwbi rest).0.wbi_to))
          || covers (melt_end to last nwbi rest).1 k)
        ≡ ((leb from k && leb k to) || covers (nwbi ∷ rest) k)
  unfolding melt_end
  melt_end-covers last nwbi [] s h l = ground arith
  melt_end-covers last nwbi (next ∷ rest) s h l = ground (arith, melt_end-covers nwbi next rest s.3)

melt_end-IsSeparated :
    (to : ℕ) (last nwbi : Wbufhdrinfo) (rest : List Wbufhdrinfo)
    → IsSeparated (last.wbi_to + 2) (nwbi ∷ rest)
    → last.wbi_to ≤ to
    → to < mbufsize
    → (max to (melt_end to last nwbi rest).0.wbi_to < mbufsize)
      × IsSeparated
          (max to (melt_end to last nwbi rest).0.wbi_to + 2)
          (melt_end to last nwbi rest).1
unfolding melt_end
melt_end-IsSeparated to last nwbi [] s l h = ground arith
melt_end-IsSeparated to last nwbi (next ∷ rest) s l h =
    ground (arith, melt_end-IsSeparated to nwbi next rest s.3)

merge-covers :
    (wbi : Wbufhdrinfo) (rest : List Wbufhdrinfo) (low offs to k : ℕ)
    → IsSeparated low (wbi ∷ rest)
    → offs ≤ to
    → offs ≤ wbi.wbi_to + 1
    → wbi.wbi_from ≤ to + 1
    → covers (merge wbi rest offs to) k ≡ (covers (wbi ∷ rest) k || (leb offs k && leb k to))
unfolding merge do_melt
merge-covers wbi [] low offs to k s l a b = ground arith
merge-covers wbi (next ∷ rest) low offs to k s l a b =
    ground (arith, melt_end-covers to (min wbi.wbi_from offs) k wbi next rest s.3)

merge-IsSeparated :
    (wbi : Wbufhdrinfo) (rest : List Wbufhdrinfo) (low offs to : ℕ)
    → IsSeparated low (wbi ∷ rest)
    → low ≤ offs
    → offs ≤ to
    → to < mbufsize
    → IsSeparated low (merge wbi rest offs to)
unfolding merge do_melt
merge-IsSeparated wbi [] low offs to s a l h = ground arith
merge-IsSeparated wbi (next ∷ rest) low offs to s a l h =
    ground (arith, melt_end-IsSeparated to wbi next rest s.3)

insert_info-covers :
    (xs : List Wbufhdrinfo) (low offs to k : ℕ)
    → IsSeparated low xs
    → offs ≤ to
    → covers (insert_info xs offs to) k ≡ (covers xs k || (leb offs k && leb k to))
unfolding insert_info
insert_info-covers [] low offs to k s l = ground arith
insert_info-covers (x ∷ xs) low offs to k s l = ground (
  arith,
  merge-covers x xs low offs to k s l,
  insert_info-covers xs (x.wbi_to + 2) offs to k s.3 l,
)

insert_info-IsSeparated :
    (xs : List Wbufhdrinfo) (low offs to : ℕ)
    → IsSeparated low xs
    → low ≤ offs
    → offs ≤ to
    → to < mbufsize
    → IsSeparated low (insert_info xs offs to)
unfolding insert_info
insert_info-IsSeparated [] low offs to s a l h = ground arith
insert_info-IsSeparated (x ∷ xs) low offs to s a l h = ground (
  arith,
  merge-IsSeparated x xs low offs to s a l h,
  insert_info-IsSeparated xs (x.wbi_to + 2) offs to s.3,
)

-- A position is dirty after `WBufUpdateInfo` exactly if it was dirty before or is one of the `len`
-- positions from `offs` on, for separated ranges and `len` greater than 0.
pub covers-update_info :
    (xs : List Wbufhdrinfo) (offs len k : ℕ)
    → IsSeparated 0 xs
    → 0 < len
    → covers (update_info xs offs len) k ≡ (covers xs k || (leb offs k && ltb k (offs + len)))
unfolding update_info
covers-update_info [] offs len k s h = ground arith
covers-update_info (x ∷ xs) offs len k s h =
    ground (arith, insert_info-covers (x ∷ xs) 0 offs (offs + len - 1) k s)

-- `WBufUpdateInfo` keeps the ranges separated: not empty, in order, with a gap between each and the
-- next, and inside the buffer, for a write that ends inside the buffer and is not empty.
pub update_info-IsSeparated :
    (xs : List Wbufhdrinfo) (offs len : ℕ)
    → IsSeparated 0 xs
    → 0 < len
    → offs + len ≤ mbufsize
    → IsSeparated 0 (update_info xs offs len)
unfolding update_info
update_info-IsSeparated [] offs len s h b = ground arith
update_info-IsSeparated (x ∷ xs) offs len s h b =
    ground (arith, insert_info-IsSeparated (x ∷ xs) 0 offs (offs + len - 1) s)
