-- ===== src/Lock/Entries.antt =====
-- `c_GetAttr`, `GetNameEntry` and `GetDirEntry` of src/lock.c: entries of the caches, which the server
-- is asked for where they are missing.
pub mod Laws
pub mod Names
pub mod NameLaws
pub mod Tests
use anfs.Base.{ℕ, Bool, Option, none, some, List, [], ◌∷◌, ◌==◌, if◌then◌else◌}
use anfs.Nfssupp.{IoErr, error_no_free_store}
use anfs.Attrs.{
  NfsFh, Fattr, AcEntry, Cache, attrs_lookup_from_file_id, attrs_update, attrs_create_and_insert,
}
use anfs.Dcache.{
  NEntry, DcEntry, DirCache, dce_id_unused, dce_create_and_insert, dce_lookup_from_file_id,
  ne_lookup, ne_create_and_insert, set_dce,
}
use anfs.Lock.{Ftype, nfdir, nflnk, other_ftype, Found, entry, missing, Directories}

-- What a lookup of a name on the server gives: the handle and the attributes of the file
pub record Dirop : Type 0 where
  pub file : NfsFh
  pub attributes : Fattr

-- The calls of the server, of `AllocVec`, and of `fthash_Now`. `table_memory` says whether a table
-- can allocate an entry, `name_memory` whether there is memory for a name.
pub record Calls (W : Type 0) : Type 0 where
  pub nfs_get_attr : W → NfsFh → W × Found Fattr
  pub nfs_lookup : W → NfsFh → List ℕ → W × Found Dirop
  pub alloc_vec : W → Option ℕ
  pub table_memory : W → Bool
  pub name_memory : W → Bool
  pub fthash_now : W → ℕ

-- The world and the two caches, with `g_MntAttr.fileid` and `g_MntFh`
pub record Globals (W : Type 0) : Type 0 where
  pub world : W
  pub attrs : Cache
  pub dirs : DirCache
  pub mnt_file_id : ℕ
  pub mnt_fh : NfsFh

module _ {W : Type 0} (calls : Calls W) where
  -- `attrs_LookupFromFileId` on the globals
  unfoldable pub lookup_attr : (file_id : ℕ) → Globals W → Option ℕ × Globals W
  unfolding attrs_lookup_from_file_id
  lookup_attr file_id g =
      let (ace, cache) = attrs_lookup_from_file_id (calls.fthash_now g.world) file_id g.attrs in
      (ace, record g { attrs = cache })

  -- `attrs_Update` on the globals
  unfoldable pub update_attr : NfsFh → Fattr → Globals W → Option ℕ × Globals W
  unfolding attrs_update
  update_attr fh fattr g =
      let w = g.world in
      let (ace, cache) =
        attrs_update (calls.alloc_vec w) (calls.table_memory w) (calls.fthash_now w) fh fattr
          g.attrs in
      (ace, record g { attrs = cache })

  -- What follows `attrs_Update`, or no call of it: `attrs_CreateAndInsert` where there is no entry
  unfoldable pub create_if_missing : NfsFh → Fattr → Option ℕ × Globals W → Found ℕ × Globals W
  unfolding attrs_create_and_insert
  create_if_missing fh fattr (some ace, g) = (entry ace, g)
  create_if_missing fh fattr (none, g) =
      let w = g.world in
      let (created, cache) =
        attrs_create_and_insert (calls.alloc_vec w) (calls.table_memory w) (calls.fthash_now w) fh
          fattr g.attrs in
      elim created [
        | some ace ↦ (entry ace, record g { attrs = cache })
        | none ↦ (missing error_no_free_store, record g { attrs = cache })
      ]

  -- The attributes from the server into the cache
  unfoldable pub insert_attr : NfsFh → Fattr → Globals W → Found ℕ × Globals W
  unfolding lookup_attr update_attr create_if_missing
  insert_attr fh fattr g =
      let (found, g1) = lookup_attr fattr.fileid g in
      elim found [
        | some ace ↦ create_if_missing fh fattr (update_attr fh fattr g1)
        | none ↦ create_if_missing fh fattr (none, g1)
      ]

  -- `c_GetAttr` once the cache has no entry
  unfoldable pub get_attr_from_server : NfsFh → Globals W → Found ℕ × Globals W
  unfolding insert_attr
  get_attr_from_server fh g =
      let (w, attr) = calls.nfs_get_attr g.world fh in
      let g1 = record g { world = w } in
      elim attr [ missing e ↦ (missing e, g1) | entry fattr ↦ insert_attr fh fattr g1 ]

  -- `c_GetAttr`; an entry is its address.
  unfoldable pub c_get_attr : (file_id : ℕ) → NfsFh → Globals W → Found ℕ × Globals W
  unfolding lookup_attr get_attr_from_server
  c_get_attr file_id fh g =
      if file_id == dce_id_unused
      then get_attr_from_server fh g
      else (let (found, g1) = lookup_attr file_id g in
          elim found [ some ace ↦ (entry ace, g1) | none ↦ get_attr_from_server fh g1 ])

  -- The end of `GetDirEntry`, with the attributes of the directory
  unfoldable pub create_dir : NfsFh → Found ℕ × Globals W → Globals W × Found ℕ
  unfolding dce_create_and_insert
  create_dir fh (missing e, g) = (g, missing e)
  create_dir fh (entry ace, g) =
      let w = g.world in
      let (dir, cache) =
        dce_create_and_insert (calls.alloc_vec w) (calls.table_memory w) (calls.fthash_now w)
          (g.attrs.aces ace).ace_file_id fh g.dirs in
      elim dir [
        | none ↦ (record g { dirs = cache }, missing error_no_free_store)
        | some d ↦ (record g { dirs = cache }, entry d)
      ]

  -- `GetDirEntry` of the directory with a number, which may be unset; a directory is its address.
  unfoldable pub get_dir_entry : (act_dir_id : ℕ) → NfsFh → Globals W → Globals W × Found ℕ
  unfolding c_get_attr create_dir dce_lookup_from_file_id
  get_dir_entry act_dir_id fh g =
      if act_dir_id == dce_id_unused
      then create_dir fh (c_get_attr act_dir_id fh g)
      else (let (found, cache) =
            dce_lookup_from_file_id (calls.fthash_now g.world) act_dir_id g.dirs in
          let g1 = record g { dirs = cache } in
          elim found [
            | some d ↦ (g1, entry d)
            | none ↦ create_dir fh (c_get_attr act_dir_id fh g1)
          ])
