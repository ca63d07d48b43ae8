-- ===== src/Find/Exclusive.antt =====
-- The actions that open a file give no object an exclusive lock and another lock.
use anfs.Base.{
  ℕ, Bytes, ◌≡◌, refl, inl, inr, ◌⊎◌, false, ◌||◌, Option, none, some, List, ◌==◌, arith,
  Bool-cases, Option-cases,
}
use anfs.Attrs.{NfsFh, Fattr}
use anfs.File.{FileMode}
use anfs.Locks.{
  Access, exclusive_lock, other_access, Elock, same_access, lock_lookup_from_key,
  lock_num_locks_from_key,
}
use anfs.Locks.Exclusive.{AreExclusive, has_exclusive}
use anfs.Lock.{Found, entry, missing, Located, at_dir, failed, stuck}
use anfs.Lock.Entries.{Calls, Globals, Dirop}
use anfs.Lock.Objects.{l_root_locate_dir, Names, lock_create}
use anfs.Lock.Objects.Fits.{Fits, insert-AreExclusive, lookup_from_key-shared, lookup_from_key-none}
use anfs.Find.{
  Files, Opening, check_locks, set_world, insert_opened, open_locked, find_old, or_created, find_in,
  act_findreadwrite, create_new, replace_old, output_in, act_findoutput,
}

-- A lock in a mode fits the locks on an object: they are all shared, or there is none.
abbrev pub FitsAs : (mode : Access) (key : ℕ) → List Elock → Type 0
FitsAs mode key locks =
    ((same_access mode exclusive_lock ≡ false) × (has_exclusive locks key ≡ false))
    ⊎ (lock_num_locks_from_key locks key ≡ 0)

check_locks-FitsAs :
    (mode : Access) (locks : List Elock) (key : ℕ)
    → AreExclusive locks
    → check_locks mode locks key ≡ none
    → FitsAs mode key locks
unfolding check_locks
check_locks-FitsAs mode locks key x e = elim (Option-cases (lock_lookup_from_key locks key)) [
  | inl absent ↦ inr (lookup_from_key-none locks key absent)
  | inr (old, found) ↦
      let free : (same_access mode exclusive_lock || same_access old.fl_access exclusive_lock)
          ≡ false =
        ground (arith, e, found) in
      inl (
        ground arith,
        ground (arith, x key, lookup_from_key-shared locks key old found (ground arith)),
      )
]

module _ {W : Type 0} (calls : Calls W) (names : Names W) (files : Files W) where
  insert_opened-AreExclusive :
      (elock : Elock) (len : ℕ) (memory : Option ℕ) (s : Opening W)
      → AreExclusive s.locking.locks
      → Fits elock s.locking.locks
      → AreExclusive (insert_opened calls names files elock len memory s).1.locking.locks
  unfolding insert_opened
  insert_opened-AreExclusive elock len none s x f = x
  insert_opened-AreExclusive elock len (some addr) s x f =
      insert-AreExclusive s.locking.locks elock x f

  open_locked-AreExclusive :
      (mode : Access) (fattr : Fattr) (s : Opening W)
      → AreExclusive s.locking.locks
      → FitsAs mode fattr.fileid s.locking.locks
      → AreExclusive (open_locked calls names files mode fattr s).1.locking.locks
  unfolding open_locked lock_create
  open_locked-AreExclusive mode fattr s x f =
      elim (Option-cases (names.lock_memory s.locking.globals.world)) [
        | inl no_memory ↦ rw (no_memory, open_locked, lock_create) x
        | inr (addr, m) ↦
            rw (m, open_locked, lock_create)
              (insert_opened-AreExclusive
                (record { addr = addr; fl_key = fattr.fileid; fl_access = mode }) fattr.size
                (files.fh_memory s.locking.globals.world) s x f)
      ]

  find_old-AreExclusive :
      (file_mode : FileMode) (mode : Access) (r : Found Dirop) (s : Opening W)
      → AreExclusive s.locking.locks
      → AreExclusive (find_old calls names files file_mode mode r s).1.locking.locks
  unfolding find_old
  find_old-AreExclusive file_mode mode (missing e) s x = x
  find_old-AreExclusive file_mode mode (entry d) s x = elim (Bool-cases (d.attributes.ftype == 1)) [
    | inr special ↦ rw (special, find_old) x
    | inl regular ↦ elim (Option-cases (check_locks mode s.locking.locks d.attributes.fileid)) [
      | inr (e, used) ↦ rw (regular, used, find_old) x
      | inl free ↦
          rw (regular, free, find_old)
            (open_locked-AreExclusive mode d.attributes s x
              (check_locks-FitsAs mode s.locking.locks d.attributes.fileid x free))
    ]
  ]

  find_in-AreExclusive :
      (file_mode : FileMode) (mode : Access) (r : Located (Globals W) (ℕ × List ℕ × List ℕ))
      (s : Opening W)
      → AreExclusive s.locking.locks
      → AreExclusive (find_in calls names files file_mode mode r s).1.locking.locks
  unfolding find_in
  find_in-AreExclusive file_mode mode stuck s x = x
  find_in-AreExclusive file_mode mode (failed g e) s x = x
  find_in-AreExclusive file_mode mode (at_dir g (d, full_name, name)) s x =
      let dir = (g.dirs.dces d).dce_nfs_fh in
      let found =
        or_created calls names files file_mode dir name (calls.nfs_lookup g.world dir name) in
      find_old-AreExclusive file_mode mode found.1
        (set_world calls names files (record s { locking = record (s.locking) { globals = g } })
          found.0)
        x

  -- `act_FINDREADWRITE` keeps the locks exclusive, for every mode.
  pub act_findreadwrite-AreExclusive :
      (file_mode : FileMode) (mode : Access) (fl : ℕ) (bstr : Bytes) (s : Opening W)
      → AreExclusive s.locking.locks
      → AreExclusive (act_findreadwrite calls names files file_mode mode fl bstr s).1.locking.locks
  unfolding act_findreadwrite
  act_findreadwrite-AreExclusive file_mode mode fl bstr s x =
      find_in-AreExclusive file_mode mode (l_root_locate_dir calls names fl bstr s.locking) s x

  -- A file that was created has no exclusive lock yet.
  abbrev pub HasNoExclusive : List Elock → Found Dirop → Type 0
  HasNoExclusive locks (missing e) = Unit {0}
  HasNoExclusive locks (entry d) = has_exclusive locks d.attributes.fileid ≡ false

  -- The file that the server creates after the lookup has none; an old file is removed before.
  abbrev pub ReplacesUnlocked : List Elock → NfsFh → (name : List ℕ) → W × Found Dirop → Type 0
  ReplacesUnlocked locks dir name (w, missing e) =
      HasNoExclusive locks (files.nfs_create w dir name (some 0)).1
  ReplacesUnlocked locks dir name (w, entry d) =
      HasNoExclusive locks (files.nfs_create (files.nfs_remove w dir name).0 dir name (some 0)).1

  -- The file that the server creates for `act_FINDOUTPUT` in the directory that was found has none.
  abbrev pub CreatesUnlocked : List Elock → Located (Globals W) (ℕ × List ℕ × List ℕ) → Type 0
  CreatesUnlocked locks stuck = Unit {0}
  CreatesUnlocked locks (failed g e) = Unit {0}
  CreatesUnlocked locks (at_dir g (d, full_name, name)) =
      let dir = (g.dirs.dces d).dce_nfs_fh in
      ReplacesUnlocked locks dir name (calls.nfs_lookup g.world dir name)

  create_new-AreExclusive :
      (r : W × Found Dirop) (s : Opening W)
      → AreExclusive s.locking.locks
      → HasNoExclusive s.locking.locks r.1
      → AreExclusive (create_new calls names files r s).1.locking.locks
  unfolding create_new
  create_new-AreExclusive (w, missing e) s x u = x
  create_new-AreExclusive (w, entry d) s x u =
      open_locked-AreExclusive other_access d.attributes (set_world calls names files s w) x
        (inl (refl, u))

  replace_old-AreExclusive :
      (dir : NfsFh) (name : List ℕ) (r : Found Dirop) (s : Opening W)
      → AreExclusive s.locking.locks
      → ReplacesUnlocked s.locking.locks dir name (s.locking.globals.world, r)
      → AreExclusive (replace_old calls names files dir name r s).1.locking.locks
  unfolding replace_old
  replace_old-AreExclusive dir name (missing e) s x u = create_new-AreExclusive _ s x u
  replace_old-AreExclusive dir name (entry d) s x u = elim (Bool-cases (d.attributes.ftype == 1)) [
    | inr special ↦ rw (special, replace_old) x
    | inl regular ↦ elim (Option-cases (lock_lookup_from_key s.locking.locks d.attributes.fileid)) [
      | inr (elock, used) ↦ rw (regular, used, replace_old) x
      | inl free ↦ rw (regular, free, replace_old) (create_new-AreExclusive _ s x u)
    ]
  ]

  -- `act_FINDOUTPUT` keeps the locks exclusive, if the file that the server creates has no exclusive
  -- lock yet.
  pub act_findoutput-AreExclusive :
      (fl : ℕ) (bstr : Bytes) (s : Opening W)
      → AreExclusive s.locking.locks
      → CreatesUnlocked s.locking.locks (l_root_locate_dir calls names fl bstr s.locking)
      → AreExclusive (act_findoutput calls names files fl bstr s).1.locking.locks
  unfolding act_findoutput output_in
  act_findoutput-AreExclusive fl bstr s x u =
      in_dir (l_root_locate_dir calls names fl bstr s.locking) u
    where
      in_dir :
          (r : Located (Globals W) (ℕ × List ℕ × List ℕ))
          → CreatesUnlocked s.locking.locks r
          → AreExclusive (output_in calls names files r s).1.locking.locks
      in_dir stuck u = x
      in_dir (failed g e) u = x
      in_dir (at_dir g (d, full_name, name)) u =
          (let dir = (g.dirs.dces d).dce_nfs_fh in
            let found = calls.nfs_lookup g.world dir name in
            replace_old-AreExclusive dir name found.1
              (set_world calls names files
                (record s { locking = record (s.locking) { globals = g } }) found.0)
              x u)
