-- ===== src/Fh.antt =====
-- src/fh.c, the list of open file handles, and src/seek.c. A handle is named by its address.
pub mod Laws
pub mod Tests
use anfs.Base.{
  ℕ, ◌+◌, Option, none, some, List, [], ◌∷◌, ◌==◌, ltb, leb, if◌then◌else◌, ℤ, pos, negsuc, ◌+ℤ◌,
  wrap32,
}
use anfs.Nfssupp.{IoErr, error_seek_error, error_file_not_object}

-- `EFH`, without its buffers; `efh_elock` is the address of the lock.
pub record Efh : Type 0 where
  pub addr : ℕ
  pub efh_id : ℕ
  pub efh_file_pos : ℕ
  pub efh_file_len : ℕ
  pub efh_elock : ℕ

-- `fh_Insert`
unfoldable pub fh_insert : List Efh → Efh → List Efh
fh_insert fhs efh = efh ∷ fhs

-- `fh_Lookup`; `none` is NULL.
unfoldable pub fh_lookup : List Efh → (id : ℕ) → Option Efh
fh_lookup [] id = none
fh_lookup (efh ∷ fhs) id =
    let further = fh_lookup fhs id in if efh.efh_id == id then some efh else further

-- `fh_Remove` of the handle at an address
unfoldable pub fh_remove : List Efh → (arg_efh : ℕ) → Option Efh × List Efh
fh_remove [] a = (none, [])
fh_remove (efh ∷ fhs) a =
    let (found, rest) = fh_remove fhs a in
    if efh.addr == a then (some efh, fhs) else (found, efh ∷ rest)

-- A new position for the first handle with an identity, the one that `fh_Lookup` finds
pub set_file_pos : List Efh → (id new_pos : ℕ) → List Efh
set_file_pos [] id new_pos = []
set_file_pos (efh ∷ fhs) id new_pos =
    let further = set_file_pos fhs id new_pos in
    if efh.efh_id == id then record efh { efh_file_pos = new_pos } ∷ fhs else efh ∷ further

-- The `Mode` of `act_SEEK`
pub data Mode : Type 0 where
  offset_current offset_beginning offset_end other_mode : Mode

-- `g_Res1`, or DOSFALSE with `g_Res2`
pub data Result : Type 0 where
  ok : ℕ → Result
  fails : IoErr → Result

-- `NewPos` after the `switch`
unfoldable pub new_pos : Efh → Mode → ℤ → ℤ
new_pos efh offset_current n = wrap32 (pos efh.efh_file_pos +ℤ n)
new_pos efh offset_beginning n = n
new_pos efh offset_end n = wrap32 (pos efh.efh_file_len +ℤ n)
new_pos efh other_mode n = negsuc 0

-- `act_SEEK`
unfoldable pub act_seek : List Efh → (id : ℕ) → ℤ → Mode → Result × List Efh
unfolding fh_lookup new_pos set_file_pos
act_seek fhs id n mode = elim (fh_lookup fhs id) [
  | none ↦ (fails error_file_not_object, fhs)
  | some efh ↦ elim (new_pos efh mode n) [
    | negsuc k ↦ (fails error_seek_error, fhs)
    | pos p ↦
        if leb p efh.efh_file_len
        then (ok efh.efh_file_pos, set_file_pos fhs id p)
        else (fails error_seek_error, fhs)
  ]
]
