-- ===== src/Directory.antt =====
-- The actions that change a directory, of src/object.c: delete, rename, and the creation of directories
-- and of special files, with the caches and the list of locks.
pub mod Laws
pub mod Steps
pub mod Tests
use anfs.Base.{
  ℕ, Bytes, Bool, true, false, ◌&&◌, ◌||◌, not, Option, none, some, List, [], ◌∷◌, ◌==◌,
  if◌then◌else◌,
}
use anfs.Nfssupp.{IoErr, error_no_free_store, error_object_in_use, error_bad_number}
use anfs.Attrs.{NfsFh, attrs_delete}
use anfs.Dcache.{NEntry, dce_delete_from_file_id, ne_remove}
use anfs.Locks.{Access, exclusive_lock, Elock, lock_lookup_from_key, lock_insert}
use anfs.Lock.{Found, entry, missing, Located, at_dir, failed, stuck}
use anfs.Lock.Entries.{Calls, Globals, Dirop}
use anfs.Lock.Entries.Names.{Named, get_name_entry}
use anfs.Lock.Objects.{Names, Locking, lock_create, l_root_locate_dir}

-- The calls that change a directory; those without a result give an error, or none.
pub record Changes (W : Type 0) : Type 0 where
  pub nfs_rm_dir : W → NfsFh → List ℕ → W × Option IoErr
  pub nfs_remove : W → NfsFh → List ℕ → W × Option IoErr
  pub nfs_mk_dir : W → NfsFh → List ℕ → W × Found Dirop
  pub nfs_rename : W → NfsFh → List ℕ → NfsFh → List ℕ → W × Option IoErr
  pub nfs_create : W → NfsFh → List ℕ → (size : ℕ) → W × Found Dirop

-- DOSTRUE, a lock, or DOSFALSE with an error; `runs_on`: a walk has no result.
pub data Done : Type 0 where
  done : Done
  new_lock : ℕ → Done
  refused : IoErr → Done
  runs_on : Done

-- The result of a call without one
unfoldable pub of_error : Option IoErr → Done
of_error none = done
of_error (some e) = refused e

-- The `Type` of `act_CREATE_OBJECT`
pub data Special : Type 0 where
  st_bdevice st_cdevice other_type : Special

module _ {W : Type 0} where
  abbrev pub set_globals : Locking W → Globals W → Locking W
  set_globals s g = record s { globals = g }

  -- `attrs_Delete` and `dc_NERemove` of an entry of the directory at `dir`
  unfoldable pub forget_name : (dir : ℕ) → NEntry → Globals W → Globals W
  unfolding attrs_delete ne_remove
  forget_name dir n_ent g = record g {
    attrs = attrs_delete n_ent.ne_file_id g.attrs;
    dirs = ne_remove dir n_ent.address g.dirs;
  }

  -- `dc_DCEDeleteFromFileId` of the file of an entry
  unfoldable pub forget_dir : NEntry → Globals W → Globals W
  unfolding dce_delete_from_file_id
  forget_dir n_ent g = record g { dirs = dce_delete_from_file_id n_ent.ne_file_id g.dirs }

  module _ (calls : Calls W) (names : Names W) (changes : Changes W) where
    -- The removal of a file or directory that has no lock; NFDIR is 2.
    unfoldable pub remove_entry : (dir : ℕ) (name : List ℕ) → NEntry → Globals W → Done × Globals W
    unfolding forget_dir forget_name of_error
    remove_entry dir name n_ent g =
        let fh = (g.dirs.dces dir).dce_nfs_fh in
        if n_ent.ne_ftype == 2
        then (let (w, e) = changes.nfs_rm_dir g.world fh name in
            (of_error e, forget_name dir n_ent (forget_dir n_ent (record g { world = w }))))
        else (let (w, e) = changes.nfs_remove g.world fh name in
            (of_error e, forget_name dir n_ent (record g { world = w })))

    -- `act_DELETE_OBJECT` with the name entry
    unfoldable pub delete_named :
        (dir : ℕ) (name : List ℕ) → Globals W × Found Named → Locking W → Done × Locking W
    unfolding remove_entry lock_lookup_from_key
    delete_named dir name (g, missing e) s = (refused e, set_globals s g)
    delete_named dir name (g, entry (n_ent, ace)) s =
        elim (lock_lookup_from_key s.locks n_ent.ne_file_id) [
          | some elock ↦ (refused error_object_in_use, set_globals s g)
          | none ↦ let (r, g') = remove_entry dir name n_ent g in (r, set_globals s g')
        ]

    -- `act_DELETE_OBJECT` with the directory
    unfoldable pub delete_in :
        Located (Globals W) (ℕ × List ℕ × List ℕ) → Locking W → Done × Locking W
    unfolding delete_named get_name_entry
    delete_in stuck s = (runs_on, s)
    delete_in (failed g e) s = (refused e, set_globals s g)
    delete_in (at_dir g (dir, full_name, name)) s =
        delete_named dir name (get_name_entry calls g dir name) s

    -- `act_DELETE_OBJECT`
    unfoldable pub act_delete_object : (fl : ℕ) → Bytes → Locking W → Done × Locking W
    unfolding delete_in l_root_locate_dir
    act_delete_object fl bstr s = delete_in (l_root_locate_dir calls names fl bstr s) s

    -- The lock on a new directory
    unfoldable pub lock_new_dir : Found Dirop → Locking W → Done × Locking W
    unfolding lock_create lock_insert
    lock_new_dir (missing e) s = (refused e, s)
    lock_new_dir (entry d) s =
        elim (lock_create (names.lock_memory s.globals.world) exclusive_lock) [
          | none ↦ (refused error_no_free_store, s)
          | some elock ↦ (
            new_lock elock.addr,
            record s {
              locks = lock_insert s.locks (record elock { fl_key = d.attributes.fileid });
            },
          )
        ]

    -- `act_CREATE_DIR` with the directory
    unfoldable pub create_dir_in :
        Located (Globals W) (ℕ × List ℕ × List ℕ) → Locking W → Done × Locking W
    unfolding lock_new_dir
    create_dir_in stuck s = (runs_on, s)
    create_dir_in (failed g e) s = (refused e, set_globals s g)
    create_dir_in (at_dir g (dir, full_name, name)) s =
        let (w, made) = changes.nfs_mk_dir g.world (g.dirs.dces dir).dce_nfs_fh name in
        lock_new_dir made (set_globals s (record g { world = w }))

    -- `act_CREATE_DIR`
    unfoldable pub act_create_dir : (fl : ℕ) → Bytes → Locking W → Done × Locking W
    unfolding create_dir_in l_root_locate_dir
    act_create_dir fl bstr s = create_dir_in (l_root_locate_dir calls names fl bstr s) s

    -- `act_RENAME_OBJECT` after the call of the server
    unfoldable pub renamed : (dir1 : ℕ) → NEntry → W × Option IoErr → Globals W → Done × Globals W
    unfolding forget_dir forget_name
    renamed dir1 n_ent (w, some e) g = (refused e, record g { world = w })
    renamed dir1 n_ent (w, none) g =
        (done, forget_name dir1 n_ent (forget_dir n_ent (record g { world = w })))

    -- `act_RENAME_OBJECT` with the name entry
    unfoldable pub rename_named :
        (dir1 : ℕ) (name1 : List ℕ) (dir2 : ℕ) (name2 : List ℕ)
        → Globals W × Found Named
        → Locking W
        → Done × Locking W
    unfolding renamed lock_lookup_from_key
    rename_named dir1 name1 dir2 name2 (g, missing e) s = (refused e, set_globals s g)
    rename_named dir1 name1 dir2 name2 (g, entry (n_ent, ace)) s =
        elim (lock_lookup_from_key s.locks n_ent.ne_file_id) [
          | some elock ↦ (refused error_object_in_use, set_globals s g)
          | none ↦
              let fh1 = (g.dirs.dces dir1).dce_nfs_fh in
              let fh2 = (g.dirs.dces dir2).dce_nfs_fh in
              let (r, g') = renamed dir1 n_ent (changes.nfs_rename g.world fh1 name1 fh2 name2) g in
              (r, set_globals s g')
        ]

    -- `act_RENAME_OBJECT` with the second directory
    unfoldable pub rename_to :
        (dir1 : ℕ) (name1 : List ℕ)
        → Located (Globals W) (ℕ × List ℕ × List ℕ)
        → Locking W
        → Done × Locking W
    unfolding rename_named get_name_entry
    rename_to dir1 name1 stuck s = (runs_on, s)
    rename_to dir1 name1 (failed g e) s = (refused e, set_globals s g)
    rename_to dir1 name1 (at_dir g (dir2, full_name2, name2)) s =
        rename_named dir1 name1 dir2 name2 (get_name_entry calls g dir1 name1) s

    -- `act_RENAME_OBJECT` with the first directory
    unfoldable pub rename_from :
        Located (Globals W) (ℕ × List ℕ × List ℕ) → (fl2 : ℕ) → Bytes → Locking W → Done × Locking W
    unfolding rename_to l_root_locate_dir
    rename_from stuck fl2 bstr2 s = (runs_on, s)
    rename_from (failed g e) fl2 bstr2 s = (refused e, set_globals s g)
    rename_from (at_dir g (dir1, full_name1, name1)) fl2 bstr2 s =
        let s1 = set_globals s g in
        rename_to dir1 name1 (l_root_locate_dir calls names fl2 bstr2 s1) s1

    -- `act_RENAME_OBJECT`
    unfoldable pub act_rename_object :
        (fl1 : ℕ) → Bytes → (fl2 : ℕ) → Bytes → Locking W → Done × Locking W
    unfolding rename_from l_root_locate_dir
    act_rename_object fl1 bstr1 fl2 bstr2 s =
        rename_from (l_root_locate_dir calls names fl1 bstr1 s) fl2 bstr2 s

    -- `act_CREATE_OBJECT` with the directory
    unfoldable pub create_special :
        (size : ℕ) → Located (Globals W) (ℕ × List ℕ × List ℕ) → Locking W → Done × Locking W
    create_special size stuck s = (runs_on, s)
    create_special size (failed g e) s = (refused e, set_globals s g)
    create_special size (at_dir g (dir, full_name, name)) s =
        let (w, made) = changes.nfs_create g.world (g.dirs.dces dir).dce_nfs_fh name size in
        (
          elim made [ entry d ↦ done | missing e ↦ refused e ],
          set_globals s (record g { world = w }),
        )

    -- `act_CREATE_OBJECT`; `subtype1` is the device.
    unfoldable pub act_create_object :
        (fl : ℕ) → Bytes → Special → (subtype1 : ℕ) → Locking W → Done × Locking W
    unfolding create_special l_root_locate_dir
    act_create_object fl bstr other_type subtype1 s = (refused error_bad_number, s)
    act_create_object fl bstr st_bdevice subtype1 s =
        create_special subtype1 (l_root_locate_dir calls names fl bstr s) s
    act_create_object fl bstr st_cdevice subtype1 s =
        create_special subtype1 (l_root_locate_dir calls names fl bstr s) s
