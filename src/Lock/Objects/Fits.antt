-- ===== src/Lock/Objects/Fits.antt =====
-- A new lock that fits the locks of its object, which `DupELock` and `lock_Create` give.
use anfs.Base.{
  ℕ, ◌⊎◌, ◌≤◌, ◌<◌, ◌≡◌, refl, inl, inr, true, false, Option, none, some, List, [], ◌∷◌, ◌==◌,
  arith, Bool-cases, Option-cases,
}
use anfs.Nfssupp.{error_object_in_use}
use anfs.Attrs.{Fattr}
use anfs.Locks.{
  Access, shared_lock, exclusive_lock, Elock, same_access, lock_lookup, lock_lookup_from_key,
  lock_num_locks_from_key, lock_insert, lock_remove,
}
use anfs.Locks.Exclusive.{AreExclusive, has_exclusive}
use anfs.Lock.{Found, entry, missing}
use anfs.Lock.Objects.{Locking, lock_create, with_key, dup_e_lock, lock_file, insert_lock}

pub shared-exclusive :
    (mode : Access) → same_access mode shared_lock ≡ true → same_access mode exclusive_lock ≡ false
shared-exclusive shared_lock e = refl
shared-exclusive exclusive_lock e = absurd (ground arith)
shared-exclusive Access.other_access e = refl

pub has_exclusive-num :
    (locks : List Elock) (key : ℕ)
    → has_exclusive locks key ≡ true
    → 1 ≤ lock_num_locks_from_key locks key
unfolding lock_num_locks_from_key
has_exclusive-num [] key h = absurd (ground arith)
has_exclusive-num (al ∷ locks) key h = ground (arith, has_exclusive-num locks key)

-- Where the first lock with the key is shared and no object has an exclusive lock and another one,
-- no lock with the key is exclusive.
pub lookup_from_key-shared :
    (locks : List Elock) (key : ℕ) (old : Elock)
    → lock_lookup_from_key locks key ≡ some old
    → same_access old.fl_access exclusive_lock ≡ false
    → has_exclusive locks key ≡ true
    → 1 < lock_num_locks_from_key locks key
unfolding lock_lookup_from_key lock_num_locks_from_key
lookup_from_key-shared [] key old e s h = absurd (ground arith)
lookup_from_key-shared (al ∷ locks) key old e s h =
    ground (arith, has_exclusive-num locks key, lookup_from_key-shared locks key old)

pub lookup_from_key-none :
    (locks : List Elock) (key : ℕ)
    → lock_lookup_from_key locks key ≡ none
    → lock_num_locks_from_key locks key ≡ 0
unfolding lock_lookup_from_key lock_num_locks_from_key
lookup_from_key-none [] key e = refl
lookup_from_key-none (al ∷ locks) key e = ground (arith, lookup_from_key-none locks key)

lookup-num :
    (locks : List Elock) (l : ℕ) (efl : Elock)
    → lock_lookup locks l ≡ some efl
    → 1 ≤ lock_num_locks_from_key locks efl.fl_key
unfolding lock_lookup lock_num_locks_from_key
lookup-num [] l efl e = absurd (ground arith)
lookup-num (al ∷ locks) l efl e = ground (arith, lookup-num locks l efl)

pub lookup-shared :
    (locks : List Elock) (l : ℕ) (efl : Elock)
    → lock_lookup locks l ≡ some efl
    → same_access efl.fl_access exclusive_lock ≡ false
    → has_exclusive locks efl.fl_key ≡ true
    → 1 < lock_num_locks_from_key locks efl.fl_key
unfolding lock_lookup lock_num_locks_from_key
lookup-shared [] l efl e s h = absurd (ground arith)
lookup-shared (al ∷ locks) l efl e s h =
    ground
      (arith, has_exclusive-num locks efl.fl_key, lookup-num locks l efl, lookup-shared locks l efl)

-- A new lock on an object whose locks are all shared, or that has none
abbrev pub Fits : Elock → List Elock → Type 0
Fits efl locks =
    ((same_access efl.fl_access exclusive_lock ≡ false) × (has_exclusive locks efl.fl_key ≡ false))
    ⊎ (lock_num_locks_from_key locks efl.fl_key ≡ 0)

pub insert-AreExclusive :
    (locks : List Elock) (efl : Elock)
    → AreExclusive locks
    → Fits efl locks
    → AreExclusive (lock_insert locks efl)
unfolding lock_insert lock_num_locks_from_key
insert-AreExclusive locks efl x (inl (s, h)) key = elim (Bool-cases (key == efl.fl_key)) [
  | inl same ↦ ground (arith, x key)
  | inr other ↦ ground (arith, x key)
]
insert-AreExclusive locks efl x (inr h) key = ground (arith, x key, has_exclusive-num locks key)

pub remove-num :
    (locks : List Elock) (l key : ℕ)
    → lock_num_locks_from_key (lock_remove locks l).1 key ≤ lock_num_locks_from_key locks key
unfolding lock_remove lock_num_locks_from_key
remove-num [] l key = omega arith
remove-num (al ∷ locks) l key = ground (arith, remove-num locks l key)

pub remove-has_exclusive :
    (locks : List Elock) (l key : ℕ)
    → has_exclusive (lock_remove locks l).1 key ≡ true
    → has_exclusive locks key ≡ true
unfolding lock_remove
remove-has_exclusive [] l key h = h
remove-has_exclusive (al ∷ locks) l key h = ground (arith, remove-has_exclusive locks l key)

-- A lock that is given, if one is, is not exclusive.
abbrev pub IsShared : Found Elock → Type 0
IsShared (missing e) = Unit {0}
IsShared (entry efl) = same_access efl.fl_access exclusive_lock ≡ false

-- A lock that is given, if one is, fits with the key.
abbrev pub FitsWith : (key : ℕ) (locks : List Elock) → Found Elock → Type 0
FitsWith key locks (missing e) = Unit {0}
FitsWith key locks (entry efl) = Fits (record efl { fl_key = key }) locks

with_key-IsShared :
    (key : ℕ) (mode : Access) (memory : Option ℕ)
    → same_access mode exclusive_lock ≡ false
    → IsShared (with_key key (lock_create memory mode))
unfolding with_key lock_create
with_key-IsShared key mode none s = tt
with_key-IsShared key mode (some addr) s = s

pub dup_e_lock-IsShared :
    (root_key : ℕ) (old : Option Elock) (mode : Access) (memory : Option ℕ)
    → IsShared (dup_e_lock root_key old mode memory)
unfolding dup_e_lock
dup_e_lock-IsShared root_key none mode memory = elim (Bool-cases (same_access mode shared_lock)) [
  | inl s ↦ rw (s, dup_e_lock) (with_key-IsShared root_key mode memory (shared-exclusive mode s))
  | inr other ↦ rw (other, dup_e_lock) tt
]
dup_e_lock-IsShared root_key (some old) mode memory =
    elim (Bool-cases (same_access old.fl_access shared_lock)) [
      | inl o ↦ elim (Bool-cases (same_access mode shared_lock)) [
        | inl s ↦
            rw (o, s, dup_e_lock)
              (with_key-IsShared old.fl_key mode memory (shared-exclusive mode s))
        | inr other ↦ rw (o, other, dup_e_lock) tt
      ]
      | inr other ↦ rw (other, dup_e_lock) tt
    ]

dup_e_lock-old :
    (root_key : ℕ) (old : Elock) (mode : Access) (memory : Option ℕ)
    → same_access old.fl_access shared_lock ≡ false
    → dup_e_lock root_key (some old) mode memory ≡ missing error_object_in_use
unfolding dup_e_lock
dup_e_lock-old root_key old mode memory s = rw (s, dup_e_lock) refl

IsShared-FitsWith :
    (key : ℕ) (locks : List Elock) (r : Found Elock)
    → has_exclusive locks key ≡ false
    → IsShared r
    → FitsWith key locks r
IsShared-FitsWith key locks (missing e) h s = tt
IsShared-FitsWith key locks (entry efl) h s = inl (s, h)

unlocked-FitsWith :
    (key : ℕ) (locks : List Elock) (r : Found Elock)
    → lock_num_locks_from_key locks key ≡ 0
    → FitsWith key locks r
unlocked-FitsWith key locks (missing e) h = tt
unlocked-FitsWith key locks (entry efl) h = inr h

pub lock_file-FitsWith :
    (root_key : ℕ) (locks : List Elock) (fattr : Fattr) (mode : Access) (memory : Option ℕ)
    → AreExclusive locks
    → FitsWith fattr.fileid locks
        (lock_file root_key (lock_lookup_from_key locks fattr.fileid) fattr mode memory)
unfolding lock_file
lock_file-FitsWith root_key locks fattr mode memory x =
    elim (Option-cases (lock_lookup_from_key locks fattr.fileid)) [
      | inl absent ↦
          unlocked-FitsWith fattr.fileid locks _ (lookup_from_key-none locks fattr.fileid absent)
      | inr (old, found) ↦ elim (Bool-cases (same_access old.fl_access shared_lock)) [
        | inr other ↦ rw (found, lock_file, dup_e_lock-old root_key old mode memory other) tt
        | inl s ↦
            rw (found, lock_file)
              (IsShared-FitsWith fattr.fileid locks _
                (ground (
                  arith,
                  x fattr.fileid,
                  lookup_from_key-shared locks fattr.fileid old found
                      (shared-exclusive old.fl_access s),
                ))
                (dup_e_lock-IsShared root_key (some old) mode memory))
      ]
    ]

pub insert_lock-AreExclusive :
    {W : Type 0}
    → (key : ℕ) (r : Found Elock) (s : Locking W) → AreExclusive s.locks
    → FitsWith key s.locks r
    → AreExclusive (insert_lock key r s).1.locks
unfolding insert_lock
insert_lock-AreExclusive key (missing e) s x f = x
insert_lock-AreExclusive key (entry efl) s x f =
    insert-AreExclusive s.locks (record efl { fl_key = key }) x f
