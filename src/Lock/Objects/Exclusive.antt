-- ===== src/Lock/Objects/Exclusive.antt =====
-- No action on locks gives an object an exclusive lock and another lock.
use anfs.Base.{
  ℕ, Bytes, ◌≡◌, refl, ap, ◌∙◌, sym, inl, inr, true, false, ◌||◌, none, List, [], ◌∷◌, ◌==◌, length,
  arith, Bool-cases, Option-cases,
}
use anfs.Fn.{b2c_str}
use anfs.Attrs.{Fattr}
use anfs.Locks.{Access, shared_lock, exclusive_lock, Elock, same_access, lock_lookup}
use anfs.Locks.Exclusive.{AreExclusive, has_exclusive}
use anfs.Lock.{Found, entry, missing, Located, at_dir, failed, stuck, root_locate_dir}
use anfs.Lock.Entries.{Calls, Globals}
use anfs.Lock.Entries.Names.{Named, get_name_entry, directories}
use anfs.Lock.Objects.{
  Names, Locking, root_attr, insert_root, lock_named, lock_at, root_locate_and_lock,
  act_locate_object, lock_dup, do_act_copy_dir, act_copy_dir, act_free_lock,
}
use anfs.Lock.Objects.Fits.{
  shared-exclusive, lookup-shared, insert-AreExclusive, remove-num, remove-has_exclusive,
  dup_e_lock-IsShared, lock_file-FitsWith, insert_lock-AreExclusive, IsShared,
}

-- `act_FREE_LOCK` keeps the locks exclusive: no object has an exclusive lock and another one after,
-- if none had before.
pub act_free_lock-AreExclusive :
    (fl : ℕ) (locks : List Elock) → AreExclusive locks → AreExclusive (act_free_lock fl locks).1
unfolding act_free_lock
act_free_lock-AreExclusive fl locks x = elim (Bool-cases (fl == 0)) [
  | inl null ↦ rw (null, act_free_lock) x
  | inr set ↦ elim (Option-cases (lock_lookup locks fl)) [
    | inl absent ↦ rw (set, absent, act_free_lock) x
    | inr (efl, e) ↦
        rw (set, e, act_free_lock)
          (λ key.
            ground (
              arith,
              x key,
              remove-num locks efl.addr key,
              remove-has_exclusive locks efl.addr key,
            ))
  ]
]

module _ {W : Type 0} (calls : Calls W) (names : Names W) where
  -- The attributes of the root, if they are given, are of a file without an exclusive lock.
  abbrev RootFits : Globals W → List Elock → Type 0
  RootFits g locks =
      (fattr : Fattr)
      → (root_attr calls names g).1 ≡ entry fattr
      → has_exclusive locks fattr.fileid ≡ false

  -- Where the walk for an empty name ends, the attributes of the root are of a file without an
  -- exclusive lock.
  abbrev pub RootIsShared : Locking W → Type 0
  RootIsShared s =
      (g : Globals W) (d : ℕ)
      → root_locate_dir (directories calls) (names.path_memory s.globals.world) s.globals []
        ≡ at_dir g d
      → RootFits g s.locks

  insert_root-AreExclusive :
      (r : Found Elock) (s : Locking W)
      → AreExclusive s.locks
      → RootFits s.globals s.locks
      → IsShared r
      → AreExclusive (insert_root calls names r s).1.locks
  unfolding insert_root
  insert_root-AreExclusive (missing e) s x root h = x
  insert_root-AreExclusive (entry efl) s x root h =
      with_attr (root_attr calls names s.globals).1 refl
    where
      with_attr :
          (attr : Found Fattr)
          → (root_attr calls names s.globals).1 ≡ attr
          → AreExclusive (insert_root calls names (entry efl) s).1.locks
      with_attr (missing e) e1 = rw (e1, insert_root) x
      with_attr (entry fattr) e1 =
          rw (e1, insert_root)
            (insert_lock-AreExclusive fattr.fileid (entry efl)
              (record s { globals = (root_attr calls names s.globals).0 }) x
              (inl (h, root fattr e1)))

  lock_named-AreExclusive :
      (mode : Access) (r : Globals W × Found Named) (s : Locking W)
      → AreExclusive s.locks
      → AreExclusive (lock_named calls names mode r s).1.locks
  unfolding lock_named
  lock_named-AreExclusive mode (g, missing e) s x = x
  lock_named-AreExclusive mode (g, entry (n_ent, ace)) s x =
      insert_lock-AreExclusive (g.attrs.aces ace).ace_fattr.fileid _ (record s { globals = g }) x
        (lock_file-FitsWith g.mnt_file_id s.locks (g.attrs.aces ace).ace_fattr mode
          (names.lock_memory g.world) x)

  lock_at-AreExclusive :
      (mode : Access) (full_name name : List ℕ) (r : Located (Globals W) ℕ) (s : Locking W)
      → AreExclusive s.locks
      → ((g : Globals W) (d : ℕ) → full_name ≡ [] → r ≡ at_dir g d → RootFits g s.locks)
      → AreExclusive (lock_at calls names mode full_name name r s).1.locks
  unfolding lock_at
  lock_at-AreExclusive mode full_name name stuck s x root = x
  lock_at-AreExclusive mode full_name name (failed g e) s x root = x
  lock_at-AreExclusive mode [] name (at_dir g par_dir) s x root =
      insert_root-AreExclusive _ (record s { globals = g }) x (root g par_dir refl refl)
        (dup_e_lock-IsShared g.mnt_file_id none mode (names.lock_memory g.world))
  lock_at-AreExclusive mode (c ∷ cs) name (at_dir g par_dir) s x root =
      let long : (length (c ∷ cs) == 0) ≡ false = ground arith in
      rw (long, lock_at)
        (lock_named-AreExclusive mode (get_name_entry calls g par_dir name)
          (record s { globals = g }) x)

  root_locate_and_lock-AreExclusive :
      (fl : ℕ) (rel_path : List ℕ) (mode : Access) (s : Locking W)
      → AreExclusive s.locks
      → RootIsShared s
      → AreExclusive (root_locate_and_lock calls names fl rel_path mode s).1.locks
  unfolding root_locate_and_lock
  root_locate_and_lock-AreExclusive fl rel_path mode s x root =
      elim (Bool-cases (same_access mode shared_lock || same_access mode exclusive_lock)) [
        | inr illegal ↦ rw (illegal, root_locate_and_lock) x
        | inl legal ↦
            by_name legal (names.c_build_full_name s.globals.world s.locks fl rel_path) refl
      ]
    where
      by_name :
          (same_access mode shared_lock || same_access mode exclusive_lock) ≡ true
          → (r : Found (List ℕ × List ℕ))
          → names.c_build_full_name s.globals.world s.locks fl rel_path ≡ r
          → AreExclusive (root_locate_and_lock calls names fl rel_path mode s).1.locks
      by_name legal (missing e) e1 = rw (legal, e1, root_locate_and_lock) x
      by_name legal (entry (full_name, name)) e1 =
          rw (legal, e1, root_locate_and_lock)
            (lock_at-AreExclusive mode full_name name _ s x (λ g d empty e2. root g d (
              ap (root_locate_dir (directories calls) (names.path_memory s.globals.world) s.globals)
                (sym empty)
              ∙ e2)))

  -- `act_LOCATE_OBJECT` keeps the locks exclusive: if no object had an exclusive lock and another one
  -- before, then none has after, for every lock and name that it starts with and every mode. The
  -- premise on the root: the attributes that the cache or the server gives for it after the walk for
  -- an empty name, if any, are of a file without an exclusive lock.
  pub act_locate_object-AreExclusive :
      (fl : ℕ) (bstr : Bytes) (mode : Access) (s : Locking W)
      → AreExclusive s.locks
      → RootIsShared s
      → AreExclusive (act_locate_object calls names fl bstr mode s).1.locks
  unfolding act_locate_object
  act_locate_object-AreExclusive fl bstr mode s x root =
      elim (Option-cases (b2c_str (names.path_memory s.globals.world) bstr).0) [
        | inl no_memory ↦ rw (no_memory, act_locate_object) x
        | inr (path, e) ↦
            rw (e, act_locate_object) (root_locate_and_lock-AreExclusive fl path mode s x root)
      ]

  -- `act_COPY_DIR` keeps the locks exclusive, for every address of a lock: if no object had an
  -- exclusive lock and another one before, then none has after.
  pub act_copy_dir-AreExclusive :
      (fl : ℕ) (s : Locking W)
      → AreExclusive s.locks
      → AreExclusive (act_copy_dir calls names fl s).1.locks
  unfolding act_copy_dir do_act_copy_dir lock_dup
  act_copy_dir-AreExclusive fl s x = elim (Bool-cases (fl == 0)) [
    | inl null ↦ rw (null, act_copy_dir) x
    | inr set ↦ elim (Option-cases (lock_lookup s.locks fl)) [
      | inl absent ↦ rw (set, absent, act_copy_dir) x
      | inr (efl, e) ↦ elim (Bool-cases (same_access efl.fl_access shared_lock)) [
        | inr other ↦ rw (set, e, other, act_copy_dir, do_act_copy_dir) x
        | inl sh ↦ elim (Option-cases (names.lock_memory s.globals.world)) [
          | inl no_memory ↦ rw (set, e, sh, no_memory, act_copy_dir, do_act_copy_dir, lock_dup) x
          | inr (addr, m) ↦
              let not_ex = shared-exclusive efl.fl_access sh in
              rw (set, e, sh, m, act_copy_dir, do_act_copy_dir, lock_dup)
                (insert-AreExclusive s.locks (record efl { addr = addr }) x
                  (inl
                    (not_ex, ground (arith, x efl.fl_key, lookup-shared s.locks fl efl e not_ex))))
        ]
      ]
    ]
  ]
