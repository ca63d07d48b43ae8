-- ===== src/Lock/Objects/Tests.antt =====
-- Locks on files of the server of Entries/Tests, on which every name of one byte is file 3.
use anfs.Base.{
  ℕ, Bytes, ◌+◌, ◌≡◌, refl, ap, sym, ◌∙◌, true, false, some, List, [], ◌∷◌, ◌==◌, if◌then◌else◌,
  arith, Bool-cases, inl, inr,
}
use anfs.Nfssupp.{error_object_in_use, error_required_arg_missing}
use anfs.Fn.Split.{no_nul}
use anfs.Lock.Objects.Replies.{Replies, act_locate_object-Replies}
use mathlib.Core.Path.{subst}
use anfs.Locks.{shared_lock, exclusive_lock, Elock, lock_num_locks_from_key}
use anfs.Locks.Exclusive.{AreExclusive}
use anfs.Lock.{Found, entry, missing, Located, at_dir, failed, stuck, root_locate_dir}
use anfs.Lock.Entries.{Globals, get_dir_entry, c_get_attr}
use anfs.Lock.Entries.Names.{directories, get_name_entry}
use anfs.Fn.{scan_path}
use anfs.Fthash.{get_free_ent, dead_at}
use anfs.Fthash.Keys.{fthash_hash}
use anfs.Lock.Entries.Tests.{calls, started, number_of}
use anfs.Lock.Objects.{
  Names, Locking, Reply, a_lock, refused, act_locate_object, act_same_lock, root_attr,
}
use anfs.Lock.Objects.Exclusive.{RootIsShared}

-- Full names are those that are given, which have no zero.
abbrev pub names : Names ℕ
names = record {
  c_build_full_name = λ w locks fl path.
      if no_nul path then entry (path, path) else missing error_required_arg_missing;
  path_memory = λ w. true;
  lock_memory = λ w. some (w + 500);
}

abbrev held : Elock
held = record { addr = 30; fl_key = 3; fl_access = shared_lock }

abbrev elsewhere : Elock
elsewhere = record { addr = 32; fl_key = 6; fl_access = exclusive_lock }

abbrev pub locking : Locking ℕ
locking = record { globals = started; locks = elsewhere ∷ held ∷ [] }

-- The string `a` with its length in front
abbrev pub named_a : Bytes
named_a k = if k == 0 then 1 else 97

abbrev keys : List Elock → List ℕ
keys [] = []
keys (al ∷ locks) = al.fl_key ∷ keys locks

abbrev outcome : Reply × Locking ℕ → Reply × List ℕ
outcome (r, s) = (r, keys s.locks)

-- A second shared lock on a file, and no lock beside it that is exclusive
locates :
    outcome (act_locate_object calls names 0 named_a shared_lock locking)
    ≡ (a_lock 502, 3 ∷ 6 ∷ 3 ∷ [])
unfolding act_locate_object get_dir_entry c_get_attr get_name_entry fthash_hash get_free_ent dead_at
    scan_path no_nul
locates = refl

in_use :
    outcome (act_locate_object calls names 0 named_a exclusive_lock locking)
    ≡ (refused error_object_in_use, 6 ∷ 3 ∷ [])
unfolding act_locate_object get_dir_entry c_get_attr get_name_entry fthash_hash get_free_ent dead_at
    scan_path no_nul
in_use = refl

same_object : act_same_lock 30 32 locking.locks ≡ false
unfolding act_same_lock
same_object = refl

locking-AreExclusive : AreExclusive locking.locks
unfolding lock_num_locks_from_key
locking-AreExclusive key = ground arith

abbrev root_number : Located (Globals ℕ) ℕ → ℕ
root_number (at_dir g d) = number_of (root_attr calls names g).1
root_number (failed g e) = 0
root_number stuck = 0

root_is_two : root_number (root_locate_dir (directories calls) true started []) ≡ 2
unfolding root_locate_dir root_attr get_dir_entry c_get_attr fthash_hash get_free_ent dead_at
root_is_two = refl

locking-RootIsShared : RootIsShared calls names locking
locking-RootIsShared g d e fattr e1 =
    let number = sym root_is_two ∙ ap root_number e ∙ ap number_of e1 in ground (arith, number)

abbrev full_name_of : Found (List ℕ × List ℕ) → List ℕ
full_name_of (missing e) = []
full_name_of (entry (full_name, name)) = full_name

given-no_nul :
    (path : List ℕ) → no_nul (full_name_of (names.c_build_full_name 0 locking.locks 0 path)) ≡ true
unfolding no_nul
given-no_nul path = elim (Bool-cases (no_nul path)) [
  | inl plain ↦ rw plain plain
  | inr other ↦ rw other refl
]

act_locate_object-Replies_example :
    Replies shared_lock locking.locks (act_locate_object calls names 0 named_a shared_lock locking)
act_locate_object-Replies_example =
    act_locate_object-Replies calls names 0 named_a shared_lock locking (λ path full_name name e.
      subst (λ f. no_nul f ≡ true) (ap full_name_of e) (given-no_nul path))
