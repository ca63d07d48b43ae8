-- ===== src/Directory/Steps.antt =====
-- No sequence of actions gives an object an exclusive lock and another lock.
use anfs.Base.{ℕ, Bytes, ◌≡◌, refl, inl, inr, List, [], arith, Option-cases}
use anfs.File.{FileMode}
use anfs.Locks.{
  Access, exclusive_lock, Elock, ObjType, lock_num_locks_from_key, lock_remove, act_change_mode,
}
use anfs.Locks.Exclusive.{AreExclusive, act_change_mode-AreExclusive}
use anfs.Lock.{Found, entry, missing, Located, at_dir, failed, stuck}
use anfs.Lock.Entries.{Calls, Globals, Dirop}
use anfs.Lock.Objects.{
  Names, Locking, lock_create, l_root_locate_dir, act_locate_object, act_copy_dir, act_free_lock,
}
use anfs.Lock.Objects.Fits.{insert-AreExclusive, remove-num, remove-has_exclusive}
use anfs.Lock.Objects.Exclusive.{
  RootIsShared, act_locate_object-AreExclusive, act_copy_dir-AreExclusive,
  act_free_lock-AreExclusive,
}
use anfs.Find.{Files, Opening, act_findreadwrite, act_findoutput}
use anfs.Find.Exclusive.{
  CreatesUnlocked, act_findreadwrite-AreExclusive, act_findoutput-AreExclusive,
}
use anfs.Directory.{Changes, set_globals, lock_new_dir, create_dir_in, act_create_dir}

lock_remove-AreExclusive :
    (locks : List Elock) (l : ℕ) → AreExclusive locks → AreExclusive (lock_remove locks l).1
lock_remove-AreExclusive locks l x key =
    ground (arith, x key, remove-num locks l key, remove-has_exclusive locks l key)

module _ {W : Type 0} (calls : Calls W) (names : Names W) (files : Files W)
    (changes : Changes W) where
  -- A directory that was made has no lock yet.
  abbrev pub HasNoLock : List Elock → Found Dirop → Type 0
  HasNoLock locks (missing e) = Unit {0}
  HasNoLock locks (entry d) = lock_num_locks_from_key locks d.attributes.fileid ≡ 0

  -- The directory that the server makes in the directory that was found has none.
  abbrev pub MakesUnlocked : List Elock → Located (Globals W) (ℕ × List ℕ × List ℕ) → Type 0
  MakesUnlocked locks stuck = Unit {0}
  MakesUnlocked locks (failed g e) = Unit {0}
  MakesUnlocked locks (at_dir g (dir, full_name, name)) =
      HasNoLock locks (changes.nfs_mk_dir g.world (g.dirs.dces dir).dce_nfs_fh name).1

  lock_new_dir-AreExclusive :
      (r : Found Dirop) (s : Locking W)
      → AreExclusive s.locks
      → HasNoLock s.locks r
      → AreExclusive (lock_new_dir calls names changes r s).1.locks
  unfolding lock_new_dir lock_create
  lock_new_dir-AreExclusive (missing e) s x u = x
  lock_new_dir-AreExclusive (entry d) s x u =
      elim (Option-cases (names.lock_memory s.globals.world)) [
        | inl no_memory ↦ rw (no_memory, lock_new_dir, lock_create) x
        | inr (addr, m) ↦
            rw (m, lock_new_dir, lock_create)
              (insert-AreExclusive s.locks
                (record { addr = addr; fl_key = d.attributes.fileid; fl_access = exclusive_lock }) x
                (inr u))
      ]

  act_create_dir-AreExclusive :
      (fl : ℕ) (bstr : Bytes) (s : Locking W)
      → AreExclusive s.locks
      → MakesUnlocked s.locks (l_root_locate_dir calls names fl bstr s)
      → AreExclusive (act_create_dir calls names changes fl bstr s).1.locks
  unfolding act_create_dir create_dir_in
  act_create_dir-AreExclusive fl bstr s x u = in_dir (l_root_locate_dir calls names fl bstr s) u
    where
      in_dir :
          (r : Located (Globals W) (ℕ × List ℕ × List ℕ))
          → MakesUnlocked s.locks r
          → AreExclusive (create_dir_in calls names changes r s).1.locks
      in_dir stuck u = x
      in_dir (failed g e) u = x
      in_dir (at_dir g (dir, full_name, name)) u =
          (let made = changes.nfs_mk_dir g.world (g.dirs.dces dir).dce_nfs_fh name in
            lock_new_dir-AreExclusive made.1 (set_globals s (record g { world = made.0 })) x u)

  -- What an action does to the locks; `s` is the state before it. The last one is the removal of a lock
  -- at an address by `act_END`.
  pub data Action (s : Opening W) : List Elock → Type 0 where
    locate :
        (fl : ℕ) (bstr : Bytes) (mode : Access)
        → RootIsShared calls names s.locking
        → Action s (act_locate_object calls names fl bstr mode s.locking).1.locks
    copy : (fl : ℕ) → Action s (act_copy_dir calls names fl s.locking).1.locks
    free : (fl : ℕ) → Action s (act_free_lock fl s.locking.locks).1
    change :
        (obj : ObjType) (mode : Access)
        → Action s (act_change_mode s.fhs s.locking.locks obj mode).1
    find :
        (file_mode : FileMode) (mode : Access) (fl : ℕ) (bstr : Bytes)
        → Action s (act_findreadwrite calls names files file_mode mode fl bstr s).1.locking.locks
    output :
        (fl : ℕ) (bstr : Bytes)
        → CreatesUnlocked calls names files s.locking.locks
            (l_root_locate_dir calls names fl bstr s.locking)
        → Action s (act_findoutput calls names files fl bstr s).1.locking.locks
    make :
        (fl : ℕ) (bstr : Bytes)
        → MakesUnlocked s.locking.locks (l_root_locate_dir calls names fl bstr s.locking)
        → Action s (act_create_dir calls names changes fl bstr s.locking).1.locks
    end : (l : ℕ) → Action s (lock_remove s.locking.locks l).1

  -- The lists of locks that actions lead to. Between two actions, all but the locks may be any state.
  pub data Reachable : List Elock → Type 0 where
    start : Reachable []
    next :
        {locks : List Elock}
        → (s : Opening W) → Reachable s.locking.locks
        → Action s locks
        → Reachable locks

  Action-AreExclusive :
      (s : Opening W)
      → {locks : List Elock} → Action s locks
      → AreExclusive s.locking.locks
      → AreExclusive locks
  Action-AreExclusive s (locate fl bstr mode r) x =
      act_locate_object-AreExclusive calls names fl bstr mode s.locking x r
  Action-AreExclusive s (copy fl) x = act_copy_dir-AreExclusive calls names fl s.locking x
  Action-AreExclusive s (free fl) x = act_free_lock-AreExclusive fl s.locking.locks x
  Action-AreExclusive s (change obj mode) x =
      act_change_mode-AreExclusive s.fhs s.locking.locks obj mode x
  Action-AreExclusive s (find file_mode mode fl bstr) x =
      act_findreadwrite-AreExclusive calls names files file_mode mode fl bstr s x
  Action-AreExclusive s (output fl bstr u) x =
      act_findoutput-AreExclusive calls names files fl bstr s x u
  Action-AreExclusive s (make fl bstr u) x = act_create_dir-AreExclusive fl bstr s.locking x u
  Action-AreExclusive s (end l) x = lock_remove-AreExclusive s.locking.locks l x

  -- However the actions on locks and files follow one another, no object ever has an exclusive lock
  -- and another lock: after any sequence, from no locks, of the actions that locate an object, copy
  -- and free a lock, change a mode, open a file in each way, create a directory, and close a file. The
  -- premises stand with the steps: at a locate, the root has no exclusive lock; and at a
  -- creation, the file that this call makes has no exclusive lock yet, or the directory no lock.
  pub Reachable-AreExclusive : {locks : List Elock} → Reachable locks → AreExclusive locks
  unfolding lock_num_locks_from_key
  Reachable-AreExclusive start = λ key. refl
  Reachable-AreExclusive (next s r a) = Action-AreExclusive s a (Reachable-AreExclusive r)
