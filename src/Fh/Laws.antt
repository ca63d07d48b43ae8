-- ===== src/Fh/Laws.antt =====
-- What a seek does, in terms of integers without a bound; and the list of handles.
use anfs.Base.{
  ℕ, ◌^◌, ◌<◌, ◌≡◌, inl, inr, some, List, [], ◌∷◌, ◌==◌, leb, if◌then◌else◌, ℤ, pos, negsuc, ◌+ℤ◌,
  wrap32, IsLong, arith, Bool-cases,
}
use anfs.Nfssupp.{error_seek_error}
use anfs.Fh.{
  Efh, fh_lookup, set_file_pos, Mode, offset_current, offset_beginning, offset_end, other_mode,
  Result, ok, fails, new_pos, act_seek,
}

-- The target of a seek, in unbounded integers
abbrev pub target : Efh → Mode → ℤ → ℤ
target efh offset_current n = pos efh.efh_file_pos +ℤ n
target efh offset_beginning n = n
target efh offset_end n = pos efh.efh_file_len +ℤ n
target efh other_mode n = negsuc 0

-- What a seek to a target must do: move there if it lies in the file, and fail otherwise.
abbrev pub Seeks : List Efh → (id : ℕ) → Efh → ℤ → Result × List Efh → Type 0
Seeks fhs id efh (negsuc k) r = r ≡ (fails error_seek_error, fhs)
Seeks fhs id efh (pos p) r = r ≡ (
    if leb p efh.efh_file_len
    then (ok efh.efh_file_pos, set_file_pos fhs id p)
    else (fails error_seek_error, fhs))

-- A sum that wraps around is never inside the file.
sum-Seeks :
    (fhs : List Efh) (id base : ℕ) (efh : Efh) (n : ℤ) (r : Result × List Efh)
    → base < 2 ^ 31
    → efh.efh_file_len < 2 ^ 31
    → IsLong n
    → Seeks fhs id efh (wrap32 (pos base +ℤ n)) r
    → Seeks fhs id efh (pos base +ℤ n) r
sum-Seeks fhs id base efh (pos p) r b l i h = ground arith
sum-Seeks fhs id base efh (negsuc p) r b l i h = ground arith

act_seek-new_pos :
    (fhs : List Efh) (id : ℕ) (efh : Efh) (n : ℤ) (mode : Mode)
    → fh_lookup fhs id ≡ some efh
    → Seeks fhs id efh (new_pos efh mode n) (act_seek fhs id n mode)
unfolding act_seek
act_seek-new_pos fhs id efh n mode e = ground (arith, e)

target-Seeks :
    (fhs : List Efh) (id : ℕ) (efh : Efh) (n : ℤ) (mode : Mode) (r : Result × List Efh)
    → efh.efh_file_pos < 2 ^ 31
    → efh.efh_file_len < 2 ^ 31
    → IsLong n
    → Seeks fhs id efh (new_pos efh mode n) r
    → Seeks fhs id efh (target efh mode n) r
unfolding new_pos
target-Seeks fhs id efh n offset_current r p l i h =
    sum-Seeks fhs id efh.efh_file_pos efh n r p l i h
target-Seeks fhs id efh n offset_beginning r p l i h = h
target-Seeks fhs id efh n offset_end r p l i h = sum-Seeks fhs id efh.efh_file_len efh n r l l i h
target-Seeks fhs id efh n other_mode r p l i h = h

lookup-set_file_pos :
    (fhs : List Efh) (id p : ℕ) (efh : Efh)
    → fh_lookup fhs id ≡ some efh
    → fh_lookup (set_file_pos fhs id p) id ≡ some (record efh { efh_file_pos = p })
unfolding fh_lookup set_file_pos
lookup-set_file_pos [] id p efh e = absurd (ground arith)
lookup-set_file_pos (x ∷ fhs) id p efh e = elim (Bool-cases (x.efh_id == id)) [
  | inl here ↦ ground arith
  | inr there ↦ ground (arith, lookup-set_file_pos fhs id p efh)
]

-- `act_SEEK` on a handle whose position, length and offset are `LONG`s: with the sum of base and
-- offset taken in unbounded integers, it moves to a target from 0 to the length of the file, returns
-- the old position, and a lookup finds the handle at the target then; any other target and any
-- other mode fail with the error for seeks, and leave the handles as they are.
pub act_seek-Seeks :
    (fhs : List Efh) (id p : ℕ) (efh : Efh) (n : ℤ) (mode : Mode)
    → fh_lookup fhs id ≡ some efh
    → efh.efh_file_pos < 2 ^ 31
    → efh.efh_file_len < 2 ^ 31
    → IsLong n
    → Seeks fhs id efh (target efh mode n) (act_seek fhs id n mode)
      × (fh_lookup (set_file_pos fhs id p) id ≡ some (record efh { efh_file_pos = p }))
act_seek-Seeks fhs id p efh n mode e f l i = (
  target-Seeks fhs id efh n mode _ f l i (act_seek-new_pos fhs id efh n mode e),
  lookup-set_file_pos fhs id p efh e,
)
