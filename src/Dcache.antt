-- ===== src/Dcache.antt =====
-- src/dcache.c, the cache of directories, on src/common/fthash.c. The table holds the addresses of the
-- directories, `dces` their contents. A directory keeps a list of the names that are known in it.
pub mod Table
pub mod Names
pub mod Laws
pub mod Tests
use anfs.Base.{
  ℕ, ◌+◌, ◌-◌, ◌*◌, ◌%◌, ◌^◌, Bool, true, false, ◌&&◌, Option, none, some, List, [], ◌∷◌, length,
  ◌==◌, if◌then◌else◌,
}
use anfs.Fthash.{
  FtHashTable, fthash_new, fthash_lock, fthash_un_lock_all, fthash_flush, fthash_set_max_entries,
  fthash_set_time_to_live,
}
use anfs.Fthash.Keys.{fthash_lookup, fthash_insert, fthash_remove3, Ftremf, fthash_bury}
use anfs.Attrs.{NfsFh, same_id, attrs_hash_func}

-- `NEntry` with its address; `ne_Next` is the rest of the list.
pub record NEntry : Type 0 where
  pub address : ℕ
  pub ne_name : List ℕ
  pub ne_hash : ℕ
  pub ne_ftype : ℕ
  pub ne_file_id : ℕ

-- `DCEntry`
pub record DcEntry : Type 0 where
  pub dce_file_id : ℕ
  pub dce_parent_id : ℕ
  pub dce_nfs_fh : NfsFh
  pub dce_entries : List NEntry

-- `g_DirCache` and the directories by their addresses
pub record DirCache : Type 0 where
  pub dir_cache : FtHashTable ℕ ℕ
  pub dces : ℕ → DcEntry

-- `DCE_ID_UNUSED`
abbrev pub dce_id_unused : ℕ
dce_id_unused = 0

-- The loop of `dc_NEStr2Hash`
unfoldable pub str2hash_loop : (l : ℕ) → List ℕ → ℕ
str2hash_loop l [] = l
str2hash_loop l (c ∷ s) = str2hash_loop ((l * 2 + c) % 2 ^ 32) s

-- `dc_NEStr2Hash`; `s` ends behind the NUL.
unfoldable pub ne_str2hash : List ℕ → ℕ
unfolding str2hash_loop
ne_str2hash name = (str2hash_loop 0 name + 2 ^ 32 - (length name + 1)) % 2 ^ 32

-- `strcmp(..) == 0`
unfoldable pub same_string : List ℕ → List ℕ → Bool
same_string [] [] = true
same_string [] (d ∷ t) = false
same_string (c ∷ s) [] = false
same_string (c ∷ s) (d ∷ t) = let rest = same_string s t in if c == d then rest else false

-- A store to the directory at an address
abbrev pub set_dce : (address : ℕ) → DcEntry → (ℕ → DcEntry) → ℕ → DcEntry
set_dce address dce dces k = if k == address then dce else dces k

-- `dc_Init`; `none` is 0. The hash and the comparison are those of the cache of attributes.
unfoldable pub dc_init :
    (table_memory lists_memory : Bool)
    → (max_entries timeout : ℕ) → (dces : ℕ → DcEntry) → Option DirCache
unfolding fthash_new
dc_init table_memory lists_memory max_entries timeout dces =
    elim (fthash_new table_memory lists_memory 256 4 max_entries timeout) [
      | none ↦ none
      | some tb ↦ some (record { dir_cache = tb; dces = dces })
    ]

-- `dc_DCECreateAndInsert`; `alloc` is the result of `AllocVec`, and `memory` is for the table.
unfoldable pub dce_create_and_insert :
    (alloc : Option ℕ) (memory : Bool) (now fileid : ℕ) → NfsFh → DirCache → Option ℕ × DirCache
unfolding fthash_insert same_id attrs_hash_func
dce_create_and_insert none memory now fileid fh g = (none, g)
dce_create_and_insert (some ent) memory now fileid fh g =
    let new : DcEntry = record {
      dce_file_id = fileid;
      dce_parent_id = dce_id_unused;
      dce_nfs_fh = fh;
      dce_entries = [];
    } in
    let g' = record g { dces = set_dce ent new g.dces } in
    elim (fthash_insert attrs_hash_func same_id memory now fileid (some ent) g.dir_cache) [
      | none ↦ (none, g')
      | some tb ↦ (some ent, record g' { dir_cache = tb })
    ]

-- `dc_DCELookupFromFileId`
unfoldable pub dce_lookup_from_file_id : (now id : ℕ) → DirCache → Option ℕ × DirCache
unfolding fthash_lookup same_id attrs_hash_func
dce_lookup_from_file_id now id g =
    let (ent, tb) = fthash_lookup attrs_hash_func same_id now id g.dir_cache in
    (ent, record g { dir_cache = tb })

-- `dc_DCEDeleteFromFileId`
unfoldable pub dce_delete_from_file_id : (id : ℕ) → DirCache → DirCache
unfolding fthash_remove3 same_id attrs_hash_func
dce_delete_from_file_id id g = record g {
  dir_cache = (fthash_remove3 attrs_hash_func same_id Ftremf.move id g.dir_cache).1;
}

-- The loop of `dc_NELookup`
unfoldable pub ne_find : (hash : ℕ) → (name : List ℕ) → List NEntry → Option NEntry
unfolding same_string
ne_find hash name [] = none
ne_find hash name (n_ent ∷ rest) =
    let further = ne_find hash name rest in
    if (hash == n_ent.ne_hash) && same_string name n_ent.ne_name then some n_ent else further

-- `fthash_Lock` of the cache
abbrev pub locked_cache : DirCache → DirCache
locked_cache g = record g {
  dir_cache = record (g.dir_cache) { tht_lock_cnt = g.dir_cache.tht_lock_cnt + 1 };
}

-- `dc_NELookup` in the directory at an address
unfoldable pub ne_lookup : (dc_ent : ℕ) → (name : List ℕ) → DirCache → Option NEntry × DirCache
unfolding ne_find ne_str2hash fthash_lock
ne_lookup dc_ent name g =
    let n_ent = ne_find (ne_str2hash name) name (g.dces dc_ent).dce_entries in
    elim n_ent [
      | none ↦ (none, g)
      | some ent ↦ (some ent, record g { dir_cache = fthash_lock g.dir_cache })
    ]

-- `dc_NECreateAndInsert`; `alloc` and `name_memory` are the results of the two allocations.
unfoldable pub ne_create_and_insert :
    (alloc : Option ℕ) (name_memory : Bool) (dc_ent : ℕ) (name : List ℕ) (ftype file_id : ℕ)
    → DirCache
    → Option NEntry × DirCache
unfolding ne_str2hash fthash_lock
ne_create_and_insert none name_memory dc_ent name ftype file_id g = (none, g)
ne_create_and_insert (some address) false dc_ent name ftype file_id g = (none, g)
ne_create_and_insert (some address) true dc_ent name ftype file_id g =
    let ent : NEntry = record {
      address = address;
      ne_name = name;
      ne_hash = ne_str2hash name;
      ne_ftype = ftype;
      ne_file_id = file_id;
    } in
    let dce : DcEntry = g.dces dc_ent in
    (
      some ent,
      record g {
        dces = set_dce dc_ent (record dce { dce_entries = ent ∷ dce.dce_entries }) g.dces;
        dir_cache = fthash_lock g.dir_cache;
      },
    )

-- The loop of `dc_NERemove`: the list without the entry at an address
unfoldable pub without_entry : (address : ℕ) → List NEntry → List NEntry
without_entry address [] = []
without_entry address (ent ∷ rest) =
    let further = without_entry address rest in
    if ent.address == address then rest else ent ∷ further

-- `dc_NERemove`
unfoldable pub ne_remove : (dc_ent : ℕ) → (par_n_ent : ℕ) → DirCache → DirCache
unfolding without_entry
ne_remove dc_ent par_n_ent g =
    let dce : DcEntry = g.dces dc_ent in
    record g {
      dces =
          set_dce dc_ent (record dce { dce_entries = without_entry par_n_ent dce.dce_entries })
            g.dces;
    }
