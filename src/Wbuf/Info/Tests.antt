-- ===== src/Wbuf/Info/Tests.antt =====
-- Runs of the update, and its theorems at concrete ranges.
use anfs.Base.{◌+◌, ◌≤◌, ◌≡◌, refl, ◌&&◌, ◌||◌, List, [], ◌∷◌, length, arith, ltb, leb}
use anfs.Wbuf.Info.{Wbufhdrinfo, range, update_info, covers, IsSeparated}
use anfs.Wbuf.Info.Cover.{covers-update_info, update_info-IsSeparated}
use anfs.Wbuf.Info.Bounds.{length-update_info}

abbrev three : List Wbufhdrinfo
three = range 10 19 ∷ range 30 39 ∷ range 50 59 ∷ []

-- Case C with two ranges to melt and one that stays.
melted : update_info three 15 20 ≡ range 10 39 ∷ range 50 59 ∷ []
unfolding update_info
melted = refl

-- The new range only touches the one behind it.
touched : update_info three 45 5 ≡ range 10 19 ∷ range 30 39 ∷ range 45 59 ∷ []
unfolding update_info
touched = refl

-- Case H: a gap stays on both sides.
inserted : update_info three 21 3 ≡ range 10 19 ∷ range 21 23 ∷ range 30 39 ∷ range 50 59 ∷ []
unfolding update_info
inserted = refl

covers-update_info_example :
    covers (update_info three 15 20) 25 ≡ (covers three 25 || (leb 15 25 && ltb 25 (15 + 20)))
covers-update_info_example = covers-update_info three 15 20 25 (omega arith) (omega arith)

update_info-IsSeparated_example : IsSeparated 0 (update_info three 15 20)
update_info-IsSeparated_example =
    update_info-IsSeparated three 15 20 (omega arith) (omega arith) (omega arith)

length-update_info_example : length (update_info three 21 3) ≤ length three + 1
length-update_info_example = length-update_info three 21 3
