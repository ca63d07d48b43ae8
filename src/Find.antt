-- ===== src/Find.antt =====
-- The actions that open a file, of src/find.c, with `LRootLocateDir` of src/lock.c: they look at the
-- locks on the file, and insert a lock and a handle.
pub mod Exclusive
pub mod Output
pub mod Tests
use anfs.Base.{
  ℕ, suc, ◌+◌, Bytes, Bool, true, false, ◌&&◌, ◌||◌, not, Option, none, some, List, [], ◌∷◌, ◌==◌,
  if◌then◌else◌,
}
use anfs.Nfssupp.{
  IoErr, error_no_free_store, error_object_in_use, error_object_not_found, error_object_wrong_type,
  error_object_exists,
}
use anfs.Fn.{b2c_str}
use anfs.Attrs.{NfsFh, Fattr}
use anfs.Fh.{Efh, fh_insert}
use anfs.File.{FileMode, mode_oldfile, mode_readwrite, mode_newfile}
use anfs.Locks.{
  Access, shared_lock, exclusive_lock, other_access, Elock, same_access, lock_lookup_from_key,
  lock_insert,
}
use anfs.Lock.{Found, entry, missing, Located, at_dir, failed, stuck, root_locate_dir}
use anfs.Lock.Entries.{Calls, Globals, Dirop}
use anfs.Lock.Entries.Names.{directories}
use anfs.Lock.Objects.{Names, Locking, lock_create, l_root_locate_dir}

-- The calls that create and remove a file, and the memory for a handle
pub record Files (W : Type 0) : Type 0 where
  pub nfs_create : W → NfsFh → List ℕ → (size : Option ℕ) → W × Found Dirop
  pub nfs_remove : W → NfsFh → List ℕ → W × Option IoErr
  pub fh_memory : W → Option ℕ

-- The list of locks with the globals, the open handles, and the last identity that was given
pub record Opening (W : Type 0) : Type 0 where
  pub locking : Locking W
  pub fhs : List Efh
  pub last_id : ℕ

-- DOSTRUE with the identity of the new handle, or an error; `runs_on`: the walk has no result.
pub data Opened : Type 0 where
  opened : ℕ → Opened
  refused : IoErr → Opened
  runs_on : Opened

-- `Res2 == ERROR_OBJECT_NOT_FOUND`
unfoldable pub is_not_found : IoErr → Bool
is_not_found error_object_not_found = true
is_not_found e = false

unfoldable pub is_readwrite : FileMode → Bool
is_readwrite mode_readwrite = true
is_readwrite m = false

-- The test of the locks on a file, for a lock in a mode: an error, or none
unfoldable pub check_locks : (mode : Access) → List Elock → (key : ℕ) → Option IoErr
unfolding lock_lookup_from_key
check_locks mode locks key = elim (lock_lookup_from_key locks key) [
  | none ↦ none
  | some elock ↦
      if same_access mode exclusive_lock || same_access elock.fl_access exclusive_lock
      then some error_object_in_use
      else none
]

module _ {W : Type 0} (calls : Calls W) (names : Names W) (files : Files W) where
  abbrev pub set_world : Opening W → W → Opening W
  set_world s w = record s {
    locking = record (s.locking) { globals = record (s.locking.globals) { world = w } };
  }

  -- `fh_Create` and the insertions of a handle and of its lock; `none` is no memory.
  unfoldable pub insert_opened : Elock → (file_len : ℕ) → Option ℕ → Opening W → Opened × Opening W
  unfolding lock_insert fh_insert
  insert_opened elock file_len none s = (refused error_no_free_store, s)
  insert_opened elock file_len (some addr) s =
      let efh : Efh = record {
        addr = addr;
        efh_id = s.last_id + 1;
        efh_file_pos = 0;
        efh_file_len = file_len;
        efh_elock = elock.addr;
      } in
      (
        opened efh.efh_id,
        record s {
          locking = record (s.locking) { locks = lock_insert s.locking.locks elock };
          fhs = fh_insert s.fhs efh;
          last_id = s.last_id + 1;
        },
      )

  -- A lock on the file and a handle for it
  unfoldable pub open_locked : (mode : Access) → Fattr → Opening W → Opened × Opening W
  unfolding lock_create insert_opened
  open_locked mode fattr s =
      let w = s.locking.globals.world in
      elim (lock_create (names.lock_memory w) mode) [
        | none ↦ (refused error_no_free_store, s)
        | some elock ↦
            insert_opened (record elock { fl_key = fattr.fileid }) fattr.size (files.fh_memory w) s
      ]

  -- `act_FINDREADWRITE` on the file that was found or created; NFREG is 1.
  unfoldable pub find_old :
      FileMode → (mode : Access) → Found Dirop → Opening W → Opened × Opening W
  unfolding open_locked check_locks is_readwrite
  find_old file_mode mode (missing e) s = (refused e, s)
  find_old file_mode mode (entry dres) s =
      if not (dres.attributes.ftype == 1)
      then (
        refused (if is_readwrite file_mode then error_object_wrong_type else error_object_exists),
        s,
      )
      else (elim (check_locks mode s.locking.locks dres.attributes.fileid) [
        | some e ↦ (refused e, s)
        | none ↦ open_locked mode dres.attributes s
      ])

  -- The call of `nfs_Create` where a file to be updated is not there
  unfoldable pub or_created : FileMode → NfsFh → List ℕ → W × Found Dirop → W × Found Dirop
  unfolding is_not_found is_readwrite
  or_created file_mode dir name (w, entry dres) = (w, entry dres)
  or_created file_mode dir name (w, missing e) =
      if is_not_found e && is_readwrite file_mode
      then files.nfs_create w dir name none
      else (w, missing e)

  -- `act_FINDREADWRITE` in a directory
  unfoldable pub find_in :
      FileMode
      → (mode : Access) → Located (Globals W) (ℕ × List ℕ × List ℕ)
      → Opening W
      → Opened × Opening W
  unfolding find_old or_created
  find_in file_mode mode stuck s = (runs_on, s)
  find_in file_mode mode (failed g e) s =
      (refused e, record s { locking = record (s.locking) { globals = g } })
  find_in file_mode mode (at_dir g (d, full_name, name)) s =
      let s1 : Opening W = record s { locking = record (s.locking) { globals = g } } in
      let dir = (g.dirs.dces d).dce_nfs_fh in
      let (w, dres) = or_created file_mode dir name (calls.nfs_lookup g.world dir name) in
      find_old file_mode mode dres (set_world s1 w)

  -- `act_FINDREADWRITE`
  unfoldable pub act_findreadwrite :
      FileMode → (mode : Access) → (fl : ℕ) → Bytes → Opening W → Opened × Opening W
  unfolding find_in l_root_locate_dir
  act_findreadwrite file_mode mode fl bstr s =
      find_in file_mode mode (l_root_locate_dir calls names fl bstr s.locking) s

  -- `act_FINDUPDATE` and `act_FINDINPUT`
  unfoldable pub act_findupdate : (fl : ℕ) → Bytes → Opening W → Opened × Opening W
  unfolding act_findreadwrite
  act_findupdate fl bstr s = act_findreadwrite mode_readwrite exclusive_lock fl bstr s

  unfoldable pub act_findinput : (fl : ℕ) → Bytes → Opening W → Opened × Opening W
  unfolding act_findreadwrite
  act_findinput fl bstr s = act_findreadwrite mode_oldfile shared_lock fl bstr s

  -- `act_FINDOUTPUT` once the old file is removed: the file is created, and its lock gets MODE_NEWFILE
  -- for a mode.
  unfoldable pub create_new : W × Found Dirop → Opening W → Opened × Opening W
  unfolding open_locked
  create_new (w, missing e) s = (refused e, set_world s w)
  create_new (w, entry dres) s = open_locked other_access dres.attributes (set_world s w)

  -- `act_FINDOUTPUT` after the lookup; what `nfs_Remove` returns is not looked at.
  unfoldable pub replace_old : NfsFh → List ℕ → Found Dirop → Opening W → Opened × Opening W
  unfolding create_new lock_lookup_from_key
  replace_old dir name (missing e) s =
      create_new (files.nfs_create s.locking.globals.world dir name (some 0)) s
  replace_old dir name (entry dres) s =
      if not (dres.attributes.ftype == 1)
      then (refused error_object_exists, s)
      else (elim (lock_lookup_from_key s.locking.locks dres.attributes.fileid) [
        | some elock ↦ (refused error_object_in_use, s)
        | none ↦
            create_new
              (files.nfs_create (files.nfs_remove s.locking.globals.world dir name).0 dir name
                (some 0))
              s
      ])

  -- `act_FINDOUTPUT` in a directory
  unfoldable pub output_in :
      Located (Globals W) (ℕ × List ℕ × List ℕ) → Opening W → Opened × Opening W
  unfolding replace_old
  output_in stuck s = (runs_on, s)
  output_in (failed g e) s = (refused e, record s { locking = record (s.locking) { globals = g } })
  output_in (at_dir g (d, full_name, name)) s =
      let s1 : Opening W = record s { locking = record (s.locking) { globals = g } } in
      let dir = (g.dirs.dces d).dce_nfs_fh in
      let (w, dres) = calls.nfs_lookup g.world dir name in
      replace_old dir name dres (set_world s1 w)

  -- `act_FINDOUTPUT`
  unfoldable pub act_findoutput : (fl : ℕ) → Bytes → Opening W → Opened × Opening W
  unfolding output_in l_root_locate_dir
  act_findoutput fl bstr s = output_in (l_root_locate_dir calls names fl bstr s.locking) s
