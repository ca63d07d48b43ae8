-- ===== src/Locks/Exclusive.antt =====
-- A lock that is exclusive is the only one on its object.
use anfs.Base.{
  ℕ, ◌≡◌, refl, inl, inr, Bool, false, ◌&&◌, ◌||◌, not, some, List, [], ◌∷◌, ◌==◌, ltb, arith,
  Bool-cases, Option-cases,
}
use anfs.Fh.{Efh, fh_lookup}
use anfs.Locks.{
  Access, shared_lock, exclusive_lock, Elock, ObjType, change_fh, change_lock, other_type,
  same_access, lock_lookup, lock_num_locks_from_key, set_access, wanted_mode, change_lock_mode,
  change_object, act_change_mode,
}

-- Some lock with the key is exclusive.
abbrev pub has_exclusive : List Elock → ℕ → Bool
has_exclusive [] key = false
has_exclusive (al ∷ locks) key =
    (key == al.fl_key && same_access al.fl_access exclusive_lock) || has_exclusive locks key

-- No object has an exclusive lock and another lock.
abbrev pub AreExclusive : List Elock → Type 0
AreExclusive locks =
    (key : ℕ) → (has_exclusive locks key && ltb 1 (lock_num_locks_from_key locks key)) ≡ false

num-set_access :
    (locks : List Elock) (l : ℕ) (mode : Access) (key : ℕ)
    → lock_num_locks_from_key (set_access locks l mode) key ≡ lock_num_locks_from_key locks key
unfolding lock_num_locks_from_key set_access
num-set_access [] l mode key = refl
num-set_access (al ∷ locks) l mode key = ground (arith, num-set_access locks l mode key)

-- A change of a lock can make a lock exclusive for its own key alone.
has_exclusive-set_access :
    (locks : List Elock) (efl : Elock) (l : ℕ) (mode : Access) (key : ℕ)
    → lock_lookup locks l ≡ some efl
    → (has_exclusive (set_access locks l mode) key
        && not (has_exclusive locks key)
        && not (key == efl.fl_key))
      ≡ false
unfolding set_access lock_lookup
has_exclusive-set_access [] efl l mode key e = refl
has_exclusive-set_access (al ∷ locks) efl l mode key e = elim (Bool-cases (al.addr == l)) [
  | inl here ↦ ground arith
  | inr there ↦ ground (arith, has_exclusive-set_access locks efl l mode key)
]

lookup-addr :
    (locks : List Elock) (l : ℕ) (efl : Elock)
    → lock_lookup locks l ≡ some efl
    → lock_lookup locks efl.addr ≡ some efl
unfolding lock_lookup
lookup-addr [] l efl e = absurd (ground arith)
lookup-addr (al ∷ locks) l efl e = elim (Bool-cases (al.addr == l)) [
  | inl here ↦ ground arith
  | inr there ↦ ground (arith, lookup-addr locks l efl, addr_of_lookup locks l efl)
]
  where
    addr_of_lookup :
        (locks : List Elock) (l : ℕ) (efl : Elock) → lock_lookup locks l ≡ some efl → efl.addr ≡ l
    addr_of_lookup [] l efl e = absurd (ground arith)
    addr_of_lookup (al ∷ locks) l efl e = ground (arith, addr_of_lookup locks l efl)

change_lock_mode-AreExclusive :
    (locks : List Elock) (efl : Elock) (mode : Access)
    → AreExclusive locks
    → lock_lookup locks efl.addr ≡ some efl
    → AreExclusive (change_lock_mode locks efl mode).1
unfolding change_lock_mode
change_lock_mode-AreExclusive locks efl mode x e =
    elim (Bool-cases (same_access efl.fl_access mode)) [
      | inl same ↦ rw (same, change_lock_mode) x
      | inr differs ↦ elim (Bool-cases (ltb 1 (lock_num_locks_from_key locks efl.fl_key))) [
        | inl used ↦ rw (differs, used, change_lock_mode) x
        | inr alone ↦
            rw (differs, alone, change_lock_mode)
              (λ key. ground (
                arith,
                x key,
                num-set_access locks efl.addr mode key,
                has_exclusive-set_access locks efl efl.addr mode key e,
              ))
      ]
    ]

change_object-AreExclusive :
    (fhs : List Efh) (locks : List Elock) (obj_type : ObjType) (mode : Access)
    → AreExclusive locks
    → AreExclusive (change_object fhs locks obj_type mode).1
unfolding change_object
change_object-AreExclusive fhs locks other_type mode x = x
change_object-AreExclusive fhs locks (change_lock l) mode x =
    elim (Option-cases (lock_lookup locks l)) [
      | inl missing ↦ rw (missing, change_object) x
      | inr (efl, e) ↦
          rw (e, change_object)
            (change_lock_mode-AreExclusive locks efl (wanted_mode mode) x
              (lookup-addr locks l efl e))
    ]
change_object-AreExclusive fhs locks (change_fh id) mode x =
    elim (Option-cases (fh_lookup fhs id)) [
      | inl missing ↦ rw (missing, change_object) x
      | inr (efh, f) ↦ elim (Option-cases (lock_lookup locks efh.efh_elock)) [
        | inl missing ↦ rw (f, missing, change_object) x
        | inr (efl, e) ↦
            rw (f, e, change_object)
              (change_lock_mode-AreExclusive locks efl (wanted_mode mode) x
                (lookup-addr locks efh.efh_elock efl e))
      ]
    ]

-- `act_CHANGE_MODE` keeps the locks exclusive, for every kind of object and every mode: if no object
-- had an exclusive lock and another lock before, then none has after.
pub act_change_mode-AreExclusive :
    (fhs : List Efh) (locks : List Elock) (obj_type : ObjType) (new_mode : Access)
    → AreExclusive locks
    → AreExclusive (act_change_mode fhs locks obj_type new_mode).1
unfolding act_change_mode
act_change_mode-AreExclusive fhs locks (change_lock l) mode x = x
act_change_mode-AreExclusive fhs locks (change_fh id) shared_lock x =
    change_object-AreExclusive fhs locks (change_fh id) shared_lock x
act_change_mode-AreExclusive fhs locks (change_fh id) exclusive_lock x =
    change_object-AreExclusive fhs locks (change_fh id) exclusive_lock x
act_change_mode-AreExclusive fhs locks (change_fh id) Access.other_access x = x
act_change_mode-AreExclusive fhs locks other_type shared_lock x = x
act_change_mode-AreExclusive fhs locks other_type exclusive_lock x = x
act_change_mode-AreExclusive fhs locks other_type Access.other_access x = x
