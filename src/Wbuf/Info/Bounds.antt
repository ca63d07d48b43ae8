-- ===== src/Wbuf/Info/Bounds.antt =====
-- The number of ranges after an update.
use anfs.Base.{ℕ, suc, ◌+◌, ◌-◌, ◌≤◌, List, [], ◌∷◌, length, arith}
use anfs.Wbuf.Info.{Wbufhdrinfo, melt_end, do_melt, merge, insert_info, update_info}

melt_end-length :
    (to : ℕ) (last nwbi : Wbufhdrinfo) (rest : List Wbufhdrinfo)
    → length (melt_end to last nwbi rest).1 ≤ suc (length rest)
unfolding melt_end
melt_end-length to last nwbi [] = ground arith
melt_end-length to last nwbi (next ∷ rest) = ground (arith, melt_end-length to nwbi next rest)

merge-length :
    (wbi : Wbufhdrinfo) (rest : List Wbufhdrinfo) (offs to : ℕ)
    → length (merge wbi rest offs to) ≤ length rest + 2
unfolding merge do_melt
merge-length wbi [] offs to = ground arith
merge-length wbi (next ∷ rest) offs to = ground (arith, melt_end-length to wbi next rest)

insert_info-length :
    (xs : List Wbufhdrinfo) (offs to : ℕ) → length (insert_info xs offs to) ≤ length xs + 1
unfolding insert_info
insert_info-length [] offs to = ground arith
insert_info-length (x ∷ xs) offs to =
    ground (arith, merge-length x xs offs to, insert_info-length xs offs to)

-- `WBufUpdateInfo` fills at most one more cell of `wbh_Info`.
pub length-update_info :
    (xs : List Wbufhdrinfo) (offs len : ℕ) → length (update_info xs offs len) ≤ length xs + 1
unfolding update_info
length-update_info [] offs len = omega arith
length-update_info (x ∷ xs) offs len = insert_info-length (x ∷ xs) offs (offs + len - 1)
