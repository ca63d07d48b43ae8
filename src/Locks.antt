-- ===== src/Locks.antt =====
-- The list of locks of src/locks.c, and `act_CHANGE_MODE` of src/object.c. A lock is named by its
-- address, and so is the lock of a file handle.
pub mod Exclusive
pub mod Tests
use anfs.Base.{
  ℕ, suc, ◌+◌, Bool, true, false, ◌&&◌, ◌||◌, not, Option, none, some, List, [], ◌∷◌, ◌==◌, ltb,
  if◌then◌else◌,
}
use anfs.Nfssupp.{IoErr, error_object_wrong_type, error_object_in_use, error_file_not_object}
use anfs.Fh.{Efh, fh_lookup}

-- `fl_Access`, and the mode that is asked for
pub data Access : Type 0 where
  shared_lock exclusive_lock other_access : Access

-- `ELOCK`, as far as the modes of locks need it
pub record Elock : Type 0 where
  pub addr : ℕ
  pub fl_key : ℕ
  pub fl_access : Access

-- The type in `dp_Arg1`, with what `dp_Arg2` names: the identity of a handle, or the address of a lock
pub data ObjType : Type 0 where
  change_fh change_lock : ℕ → ObjType
  other_type : ObjType

-- `g_Res1` is set, or DOSFALSE and `g_Res2`, or neither; or a pointer is used that is not valid.
pub data Result : Type 0 where
  success : Result
  fails : IoErr → Result
  unset : Result
  fault : Result

-- The comparison of modes
abbrev pub same_access : Access → Access → Bool
same_access shared_lock shared_lock = true
same_access exclusive_lock exclusive_lock = true
same_access a b = false

-- `lock_Insert`
unfoldable pub lock_insert : List Elock → Elock → List Elock
lock_insert locks elock = elock ∷ locks

-- `lock_Lookup`
unfoldable pub lock_lookup : List Elock → ℕ → Option Elock
lock_lookup [] l = none
lock_lookup (al ∷ locks) l =
    let further = lock_lookup locks l in if al.addr == l then some al else further

-- `lock_LookupFromKey`
unfoldable pub lock_lookup_from_key : List Elock → ℕ → Option Elock
lock_lookup_from_key [] key = none
lock_lookup_from_key (al ∷ locks) key =
    let further = lock_lookup_from_key locks key in if key == al.fl_key then some al else further

-- `lock_NumLocksFromKey`
unfoldable pub lock_num_locks_from_key : List Elock → ℕ → ℕ
lock_num_locks_from_key [] key = 0
lock_num_locks_from_key (al ∷ locks) key =
    let num = lock_num_locks_from_key locks key in if key == al.fl_key then suc num else num

-- `lock_Remove`
unfoldable pub lock_remove : List Elock → ℕ → Option Elock × List Elock
lock_remove [] l = (none, [])
lock_remove (al ∷ locks) l =
    let (found, rest) = lock_remove locks l in
    if al.addr == l then (some al, locks) else (found, al ∷ rest)

-- A new mode for the lock at an address
pub set_access : List Elock → (l : ℕ) → Access → List Elock
set_access [] l mode = []
set_access (al ∷ locks) l mode =
    let further = set_access locks l mode in
    if al.addr == l then record al { fl_access = mode } ∷ locks else al ∷ further

-- The change of one lock in `act_CHANGE_MODE`; the code has it four times.
unfoldable pub change_lock_mode : List Elock → Elock → Access → Result × List Elock
unfolding set_access lock_num_locks_from_key
change_lock_mode locks efl mode =
    if same_access efl.fl_access mode
    then (success, locks)
    else (if ltb 1 (lock_num_locks_from_key locks efl.fl_key)
        then (fails error_object_in_use, locks)
        else (success, set_access locks efl.addr mode))

-- The tests of `ObjType` at the head of `act_CHANGE_MODE`
abbrev pub is_change_fh : ObjType → Bool
is_change_fh (change_fh id) = true
is_change_fh obj = false

abbrev pub is_change_lock : ObjType → Bool
is_change_lock (change_lock l) = true
is_change_lock obj = false

-- The mode that the `switch` of `act_CHANGE_MODE` sets: every one but SHARED_LOCK is taken as
-- EXCLUSIVE_LOCK.
unfoldable pub wanted_mode : Access → Access
wanted_mode shared_lock = shared_lock
wanted_mode mode = exclusive_lock

-- The `switch` of `act_CHANGE_MODE`
unfoldable pub change_object : List Efh → List Elock → ObjType → Access → Result × List Elock
unfolding change_lock_mode lock_lookup wanted_mode
change_object fhs locks other_type mode = (unset, locks)
change_object fhs locks (change_fh id) mode = elim (fh_lookup fhs id) [
  | none ↦ (fails error_file_not_object, locks)
  | some efh ↦ elim (lock_lookup locks efh.efh_elock) [
    | none ↦ (fault, locks)
    | some efl ↦ change_lock_mode locks efl (wanted_mode mode)
  ]
]
change_object fhs locks (change_lock l) mode = elim (lock_lookup locks l) [
  | none ↦ (fails error_file_not_object, locks)
  | some efl ↦ change_lock_mode locks efl (wanted_mode mode)
]

-- `act_CHANGE_MODE`
unfoldable pub act_change_mode : List Efh → List Elock → ObjType → Access → Result × List Elock
unfolding change_object
act_change_mode fhs locks obj_type new_mode =
    if not (is_change_fh obj_type || not (is_change_lock obj_type))
      || not (same_access new_mode shared_lock || same_access new_mode exclusive_lock)
    then (fails error_object_wrong_type, locks)
    else change_object fhs locks obj_type new_mode
