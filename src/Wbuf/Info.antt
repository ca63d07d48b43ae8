-- ===== src/Wbuf/Info.antt =====
-- The dirty ranges of one write buffer: `WBufUpdateInfo` and `WBufDoMelt` of src/wbuf.c.
-- The first `wbh_NumInfo` cells of `wbh_Info` are a list. The bounds are `WORD`s; they stay below
-- `MBUFSIZE`, so no value wraps.
pub mod Cover
pub mod Bounds
pub mod Tests
use anfs.Base.{
  ℕ, ◌+◌, ◌-◌, ◌≤◌, ◌<◌, min, max, Bool, false, ◌&&◌, ◌||◌, List, [], ◌∷◌, ltb, leb, if◌then◌else◌,
}

-- `WBUFHDRINFOSIZE`, the cells of `wbh_Info`
abbrev pub wbufhdrinfosize : ℕ
wbufhdrinfosize = 59

abbrev pub mbufsize : ℕ
mbufsize = 8192

-- Both bounds are inclusive.
pub record Wbufhdrinfo : Type 0 where
  pub wbi_from : ℕ
  pub wbi_to : ℕ

abbrev pub range : ℕ → ℕ → Wbufhdrinfo
range from to = record { wbi_from = from; wbi_to = to }

-- `IsInclBetween`
unfoldable pub is_incl_between : ℕ → ℕ → ℕ → Bool
is_incl_between n low high = leb low n && leb n high

-- The `while` of `WBufDoMelt` and the step back behind it. `last` stands before `nwbi`, `rest`
-- behind it; the result is the last range to melt and the ranges behind that.
pub melt_end : ℕ → Wbufhdrinfo → Wbufhdrinfo → List Wbufhdrinfo → Wbufhdrinfo × List Wbufhdrinfo
melt_end to last nwbi [] = if ltb (to + 1) nwbi.wbi_from then (last, nwbi ∷ []) else (nwbi, [])
melt_end to last nwbi (next ∷ rest) =
    let further = melt_end to nwbi next rest in
    if ltb nwbi.wbi_to to
    then further
    else (if ltb (to + 1) nwbi.wbi_from then (last, nwbi ∷ next ∷ rest) else (nwbi, next ∷ rest))

-- `WBufDoMelt`: `wbi` takes in the ranges from `nwbi` on that the new one reaches.
pub do_melt : Wbufhdrinfo → Wbufhdrinfo → List Wbufhdrinfo → (offs to : ℕ) → List Wbufhdrinfo
unfolding melt_end
do_melt wbi nwbi rest offs to =
    let (last, kept) = melt_end to wbi nwbi rest in
    range (min wbi.wbi_from offs) (max to last.wbi_to) ∷ kept

-- What happens at the first range that the new one touches or precedes, by what follows it.
pub merge : Wbufhdrinfo → List Wbufhdrinfo → (offs to : ℕ) → List Wbufhdrinfo
merge wbi [] offs to = range (min wbi.wbi_from offs) (max wbi.wbi_to to) ∷ []
merge wbi (next ∷ rest) offs to =
    if leb next.wbi_from (to + 1)
    then do_melt wbi next rest offs to
    else range (min wbi.wbi_from offs) (max wbi.wbi_to to) ∷ next ∷ rest

-- The search for the place and the insertion there.
pub insert_info : List Wbufhdrinfo → (offs to : ℕ) → List Wbufhdrinfo
insert_info [] offs to = range offs to ∷ []
insert_info (wbi ∷ rest) offs to =
    let further = insert_info rest offs to in
    if leb offs (wbi.wbi_to + 1)
    then (if ltb (to + 1) wbi.wbi_from then range offs to ∷ wbi ∷ rest else merge wbi rest offs to)
    else wbi ∷ further

-- `WBufUpdateInfo`: notes that `len` bytes from `offs` on are dirty.
unfoldable pub update_info : List Wbufhdrinfo → (offs len : ℕ) → List Wbufhdrinfo
unfolding insert_info merge do_melt melt_end
update_info [] offs len = range offs (offs + len - 1) ∷ []
update_info (wbi ∷ rest) offs len = insert_info (wbi ∷ rest) offs (offs + len - 1)

-- The offset lies in one of the ranges.
abbrev pub covers : List Wbufhdrinfo → ℕ → Bool
covers [] k = false
covers (wbi ∷ rest) k = (leb wbi.wbi_from k && leb k wbi.wbi_to) || covers rest k

-- The ranges are not empty, start at `low` or behind, end inside the buffer, and a gap lies
-- between each and the next.
abbrev pub IsSeparated : ℕ → List Wbufhdrinfo → Type 0
IsSeparated low [] = Unit {0}
IsSeparated low (wbi ∷ rest) =
    (low ≤ wbi.wbi_from)
    × (wbi.wbi_from ≤ wbi.wbi_to)
    × (wbi.wbi_to < mbufsize)
    × IsSeparated (wbi.wbi_to + 2) rest
