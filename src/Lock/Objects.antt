-- ===== src/Lock/Objects.antt =====
-- The actions on locks of src/lock.c: `act_LOCATE_OBJECT` with `RootLocateAndLock` and `DupELock`,
-- `act_FREE_LOCK`, `act_COPY_DIR` and `act_SAME_LOCK`, on the list of locks and the caches. A lock has
-- its address, key and mode; address 0 stands for NULL.
pub mod Fits
pub mod Exclusive
pub mod Replies
pub mod Tests
use anfs.Base.{
  ℕ, Bytes, Bool, true, false, ◌&&◌, ◌||◌, not, Option, none, some, List, [], ◌∷◌, length, ◌==◌,
  if◌then◌else◌,
}
use anfs.Nfssupp.{
  IoErr, error_no_free_store, error_object_in_use, error_invalid_lock, error_required_arg_missing,
  error_is_soft_link,
}
use anfs.Fn.{b2c_str}
use anfs.Attrs.{Fattr}
use anfs.Locks.{
  Access, shared_lock, exclusive_lock, Elock, same_access, lock_lookup, lock_lookup_from_key,
  lock_insert, lock_remove,
}
use anfs.Lock.{Found, entry, missing, Located, at_dir, failed, stuck, root_locate_dir}
use anfs.Lock.Entries.{Calls, Globals, lookup_attr}
use anfs.Lock.Entries.Names.{Named, get_name_entry, directories}

-- `g_Res1` is a lock, NULL without an error, or DOSFALSE with `g_Res2`. `runs_on`: the walk has no result.
pub data Reply : Type 0 where
  a_lock : ℕ → Reply
  no_lock : Reply
  refused : IoErr → Reply
  runs_on : Reply

-- `CBuildFullName`, which gives the full name and the name, and the memory for the copy of a path and
-- for a lock with its names
pub record Names (W : Type 0) : Type 0 where
  pub c_build_full_name : W → List Elock → (fl : ℕ) → List ℕ → Found (List ℕ × List ℕ)
  pub path_memory : W → Bool
  pub lock_memory : W → Option ℕ

-- The globals and the list of locks
pub record Locking (W : Type 0) : Type 0 where
  pub globals : Globals W
  pub locks : List Elock

-- `lock_Create`: the key is 0 at first.
unfoldable pub lock_create : Option ℕ → (mode : Access) → Option Elock
lock_create none mode = none
lock_create (some addr) mode = some (record { addr = addr; fl_key = 0; fl_access = mode })

-- A lock with the key, or no memory
unfoldable pub with_key : (key : ℕ) → Option Elock → Found Elock
with_key key none = missing error_no_free_store
with_key key (some efl) = entry (record efl { fl_key = key })

-- `DupELock`; `root_key` is `g_MntAttr.fileid`.
unfoldable pub dup_e_lock : (root_key : ℕ) → Option Elock → (mode : Access) → Option ℕ → Found Elock
unfolding lock_create with_key
dup_e_lock root_key (some old) mode memory =
    if not (same_access old.fl_access shared_lock)
    then missing error_object_in_use
    else (if not (same_access mode shared_lock)
        then missing error_object_in_use
        else with_key old.fl_key (lock_create memory mode))
dup_e_lock root_key none mode memory =
    if not (same_access mode shared_lock)
    then missing error_object_in_use
    else with_key root_key (lock_create memory mode)

-- The new lock on a file, with its old lock if there is one; NFLNK is 5.
unfoldable pub lock_file :
    (root_key : ℕ) → Option Elock → Fattr → (mode : Access) → Option ℕ → Found Elock
unfolding dup_e_lock with_key lock_create
lock_file root_key (some old) fattr mode memory = dup_e_lock root_key (some old) mode memory
lock_file root_key none fattr mode memory =
    if fattr.ftype == 5 then missing error_is_soft_link else with_key 0 (lock_create memory mode)

-- The reply for a lock that `RootLocateAndLock` has, which it gives its key and inserts
unfoldable pub insert_lock : {W : Type 0} → (key : ℕ) → Found Elock → Locking W → Reply × Locking W
unfolding lock_insert
insert_lock key (missing e) s = (refused e, s)
insert_lock key (entry efl) s =
    (a_lock efl.addr, record s { locks = lock_insert s.locks (record efl { fl_key = key }) })

module _ {W : Type 0} (calls : Calls W) (names : Names W) where
  -- The attributes of the root, from the cache or the server
  unfoldable pub root_attr : Globals W → Globals W × Found Fattr
  unfolding lookup_attr
  root_attr g =
      let (ace, g1) = lookup_attr calls g.mnt_file_id g in
      elim ace [
        | some a ↦ (g1, entry (g1.attrs.aces a).ace_fattr)
        | none ↦
            let (w, attr) = calls.nfs_get_attr g1.world g1.mnt_fh in (record g1 { world = w }, attr)
      ]

  -- The key of a new lock on the root; `lock_Delete` releases the lock where there are no attributes.
  unfoldable pub insert_root : Found Elock → Locking W → Reply × Locking W
  unfolding insert_lock root_attr
  insert_root (missing e) s = (refused e, s)
  insert_root (entry efl) s =
      let (g, attr) = root_attr s.globals in
      let s1 : Locking W = record s { globals = g } in
      elim attr [
        | missing e ↦ (refused e, s1)
        | entry fattr ↦ insert_lock fattr.fileid (entry efl) s1
      ]

  -- The lock on the file of a name entry
  unfoldable pub lock_named :
      (mode : Access) → Globals W × Found Named → Locking W → Reply × Locking W
  unfolding lock_lookup_from_key lock_file insert_lock
  lock_named mode (g, missing e) s = (refused e, record s { globals = g })
  lock_named mode (g, entry (n_ent, ace)) s =
      let s1 : Locking W = record s { globals = g } in
      let fattr = (g.attrs.aces ace).ace_fattr in
      let old = lock_lookup_from_key s1.locks fattr.fileid in
      insert_lock fattr.fileid (lock_file g.mnt_file_id old fattr mode (names.lock_memory g.world))
        s1

  -- `RootLocateAndLock` with the directory; an empty full name is the root.
  unfoldable pub lock_at :
      (mode : Access) (full_name name : List ℕ)
      → Located (Globals W) ℕ
      → Locking W
      → Reply × Locking W
  unfolding lock_named insert_root dup_e_lock get_name_entry
  lock_at mode full_name name stuck s = (runs_on, s)
  lock_at mode full_name name (failed g e) s = (refused e, record s { globals = g })
  lock_at mode full_name name (at_dir g par_dir) s =
      let s1 : Locking W = record s { globals = g } in
      if length full_name == 0
      then insert_root (dup_e_lock g.mnt_file_id none mode (names.lock_memory g.world)) s1
      else lock_named mode (get_name_entry calls g par_dir name) s1

  -- `RootLocateAndLock`
  unfoldable pub root_locate_and_lock :
      (fl : ℕ) (rel_path : List ℕ) (mode : Access) → Locking W → Reply × Locking W
  unfolding lock_at root_locate_dir
  root_locate_and_lock fl rel_path mode s =
      let w = s.globals.world in
      if not (same_access mode shared_lock || same_access mode exclusive_lock)
      then (refused error_required_arg_missing, s)
      else (elim (names.c_build_full_name w s.locks fl rel_path) [
        | missing e ↦ (refused e, s)
        | entry (full_name, name) ↦
            lock_at mode full_name name
              (root_locate_dir (directories calls) (names.path_memory w) s.globals full_name) s
      ])

  -- `act_LOCATE_OBJECT`
  unfoldable pub act_locate_object :
      (fl : ℕ) (bstr : Bytes) (mode : Access) → Locking W → Reply × Locking W
  unfolding root_locate_and_lock b2c_str
  act_locate_object fl bstr mode s = elim (b2c_str (names.path_memory s.globals.world) bstr).0 [
    | none ↦ (refused error_no_free_store, s)
    | some path ↦ root_locate_and_lock fl path mode s
  ]

  -- `RootLocateDir` with the names that it was called for
  unfoldable pub with_names :
      (full_name name : List ℕ) → Located (Globals W) ℕ → Located (Globals W) (ℕ × List ℕ × List ℕ)
  with_names full_name name (at_dir g d) = at_dir g (d, full_name, name)
  with_names full_name name (failed g e) = failed g e
  with_names full_name name stuck = stuck

  -- `LRootLocateDir` of a B-string: the directory, the full name and the name
  unfoldable pub l_root_locate_dir :
      (fl : ℕ) (rel_path : Bytes) → Locking W → Located (Globals W) (ℕ × List ℕ × List ℕ)
  unfolding with_names root_locate_dir b2c_str
  l_root_locate_dir fl rel_path s =
      let w = s.globals.world in
      elim (b2c_str (names.path_memory w) rel_path).0 [
        | none ↦ failed s.globals error_no_free_store
        | some path ↦ elim (names.c_build_full_name w s.locks fl path) [
          | missing e ↦ failed s.globals e
          | entry (full_name, name) ↦
              with_names full_name name
                (root_locate_dir (directories calls) (names.path_memory w) s.globals full_name)
        ]
      ]

  -- `lock_Dup`
  unfoldable pub lock_dup : Globals W → Elock → Option Elock
  lock_dup g efl = elim (names.lock_memory g.world) [
    | none ↦ none
    | some addr ↦ some (record efl { addr = addr })
  ]

  -- `do_act_COPY_DIR`
  unfoldable pub do_act_copy_dir : Option Elock → Locking W → Reply × Locking W
  unfolding lock_dup lock_insert
  do_act_copy_dir none s = (refused error_invalid_lock, s)
  do_act_copy_dir (some efl) s =
      if not (same_access efl.fl_access shared_lock)
      then (refused error_object_in_use, s)
      else (elim (lock_dup s.globals efl) [
        | none ↦ (refused error_no_free_store, s)
        | some nel ↦ (a_lock nel.addr, record s { locks = lock_insert s.locks nel })
      ])

  -- `act_COPY_DIR`
  unfoldable pub act_copy_dir : (fl : ℕ) → Locking W → Reply × Locking W
  unfolding do_act_copy_dir lock_lookup
  act_copy_dir fl s = if fl == 0 then (no_lock, s) else do_act_copy_dir (lock_lookup s.locks fl) s

-- `act_FREE_LOCK`: DOSTRUE, or an error
unfoldable pub act_free_lock : (fl : ℕ) → List Elock → Found Bool × List Elock
unfolding lock_lookup lock_remove
act_free_lock fl locks = if fl == 0 then (entry true, locks) else (elim (lock_lookup locks fl) [
  | none ↦ (missing error_invalid_lock, locks)
  | some efl ↦ (entry true, (lock_remove locks efl.addr).1)
])

-- The comparison of two locks that are looked up
unfoldable pub same_key : Option Elock → Option Elock → Bool
same_key (some efl1) (some efl2) = efl1.fl_key == efl2.fl_key
same_key (some efl1) none = false
same_key none e = false

-- `act_SAME_LOCK`
unfoldable pub act_same_lock : (fl1 fl2 : ℕ) → List Elock → Bool
unfolding lock_lookup same_key
act_same_lock fl1 fl2 locks = same_key (lock_lookup locks fl1) (lock_lookup locks fl2)
