-- ===== src/Attrs.antt =====
-- src/attrs.c, the cache of file attributes, on src/common/fthash.c. The table holds the addresses of
-- the entries, `attrs` their contents. The time is the result of `fthash_Now`.
pub mod Laws
pub mod Tests
use anfs.Base.{ℕ, ◌+◌, ◌-◌, ◌%◌, ◌^◌, Bool, Option, none, some, List, ◌==◌, if◌then◌else◌}
use anfs.Fthash.{
  FtHashTable, fthash_new, fthash_delete, fthash_un_lock_all, fthash_flush, fthash_set_max_entries,
  fthash_set_time_to_live,
}
use anfs.Fthash.Keys.{fthash_lookup, fthash_insert, fthash_remove3, Ftremf, fthash_bury}

-- `nfs_fh`: the `FHSIZE` bytes
abbrev pub NfsFh : Type 0
NfsFh = List ℕ

-- `fattr`; the times are in seconds.
pub record Fattr : Type 0 where
  pub ftype : ℕ
  pub mode : ℕ
  pub nlink : ℕ
  pub uid : ℕ
  pub gid : ℕ
  pub size : ℕ
  pub blocksize : ℕ
  pub rdev : ℕ
  pub blocks : ℕ
  pub fsid : ℕ
  pub fileid : ℕ
  pub atime : ℕ
  pub mtime : ℕ
  pub ctime : ℕ

-- `ACEntry`
pub record AcEntry : Type 0 where
  pub ace_file_id : ℕ
  pub ace_nfs_fh : NfsFh
  pub ace_fattr : Fattr

-- `g_AttrCache` and the entries by their addresses
pub record Cache : Type 0 where
  pub attr_cache : FtHashTable ℕ ℕ
  pub aces : ℕ → AcEntry

-- `attrs_HashFunc`
unfoldable pub attrs_hash_func : ℕ → ℕ
attrs_hash_func id = id % 256

-- `attrs_KeyCmp`, as an unsigned number, and the test of its result
unfoldable pub attrs_key_cmp : ℕ → ℕ → ℕ
attrs_key_cmp id1 id2 = (id1 + 2 ^ 32 - id2) % 2 ^ 32

unfoldable pub same_id : ℕ → ℕ → Bool
unfolding attrs_key_cmp
same_id id1 id2 = attrs_key_cmp id1 id2 == 0

-- `attrs_Init`; `none` is 0.
unfoldable pub attrs_init :
    (table_memory lists_memory : Bool)
    → (max_entries timeout : ℕ) → (aces : ℕ → AcEntry) → Option Cache
unfolding fthash_new
attrs_init table_memory lists_memory max_entries timeout aces =
    elim (fthash_new table_memory lists_memory 256 4 max_entries timeout) [
      | none ↦ none
      | some tb ↦ some (record { attr_cache = tb; aces = aces })
    ]

-- `attrs_Cleanup`: the entries that are freed
unfoldable pub attrs_cleanup : Cache → List (Option ℕ)
unfolding fthash_delete
attrs_cleanup g = fthash_delete g.attr_cache

-- `attrs_LookupFromFileId`
unfoldable pub attrs_lookup_from_file_id : (now file_id : ℕ) → Cache → Option ℕ × Cache
unfolding fthash_lookup same_id attrs_hash_func
attrs_lookup_from_file_id now file_id g =
    let (ent, tb) = fthash_lookup attrs_hash_func same_id now file_id g.attr_cache in
    (ent, record g { attr_cache = tb })

-- `attrs_Delete`
unfoldable pub attrs_delete : (file_id : ℕ) → Cache → Cache
unfolding fthash_remove3 same_id attrs_hash_func
attrs_delete file_id g = record g {
  attr_cache = (fthash_remove3 attrs_hash_func same_id Ftremf.move file_id g.attr_cache).1;
}

-- A store to the entry at an address
abbrev pub set_ace : (address : ℕ) → AcEntry → (ℕ → AcEntry) → ℕ → AcEntry
set_ace address ace aces k = if k == address then ace else aces k

-- `attrs_CreateAndInsert`; `alloc` is the result of `AllocVec`, and `memory` says whether the table
-- can get an entry. The memory is freed again if the insertion fails.
unfoldable pub attrs_create_and_insert :
    (alloc : Option ℕ) (memory : Bool) (now : ℕ) → NfsFh → Fattr → Cache → Option ℕ × Cache
unfolding fthash_insert same_id attrs_hash_func
attrs_create_and_insert none memory now fh fattr g = (none, g)
attrs_create_and_insert (some ent) memory now fh fattr g =
    let new : AcEntry = record { ace_file_id = fattr.fileid; ace_nfs_fh = fh; ace_fattr = fattr } in
    let g' = record g { aces = set_ace ent new g.aces } in
    elim (fthash_insert attrs_hash_func same_id memory now fattr.fileid (some ent) g.attr_cache) [
      | none ↦ (none, g')
      | some tb ↦ (some ent, record g' { attr_cache = tb })
    ]

-- `attrs_Update`
unfoldable pub attrs_update :
    (alloc : Option ℕ) (memory : Bool) (now : ℕ) → NfsFh → Fattr → Cache → Option ℕ × Cache
unfolding attrs_lookup_from_file_id attrs_create_and_insert
attrs_update alloc memory now fh fattr g =
    let (ac_ent, g') = attrs_lookup_from_file_id now fattr.fileid g in
    elim ac_ent [
      | none ↦ attrs_create_and_insert alloc memory now fh fattr g'
      | some ent ↦ (
        some ent,
        record g' {
          aces = set_ace ent (record (g'.aces ent) { ace_nfs_fh = fh; ace_fattr = fattr }) g'.aces;
        },
      )
    ]

-- `attrs_UnLockAll`; `none` is a loop that does not end.
unfoldable pub attrs_un_lock_all : (now : ℕ) → Cache → Option Cache
unfolding fthash_un_lock_all
attrs_un_lock_all now g = elim (fthash_un_lock_all now g.attr_cache) [
  | none ↦ none
  | some tb ↦ some (record g { attr_cache = tb })
]

-- `attrs_Flush`
unfoldable pub attrs_flush : Cache → Cache
unfolding fthash_flush
attrs_flush g = record g { attr_cache = fthash_flush g.attr_cache }

-- `attrs_SetCacheTimeout`; `none` is a negative number.
unfoldable pub attrs_set_cache_timeout : Option ℕ → Cache → Option ℕ × Cache
unfolding fthash_set_time_to_live
attrs_set_cache_timeout timeout g =
    let (old, tb) = fthash_set_time_to_live timeout g.attr_cache in
    (old, record g { attr_cache = tb })

-- `attrs_Bury`
unfoldable pub attrs_bury : (now : ℕ) → Cache → Cache
unfolding fthash_bury
attrs_bury now g = record g { attr_cache = fthash_bury now g.attr_cache }

-- `attrs_SetCacheSize`
unfoldable pub attrs_set_cache_size : (now new_size : ℕ) → Cache → Option Cache
unfolding fthash_set_max_entries
attrs_set_cache_size now new_size g = elim (fthash_set_max_entries now new_size g.attr_cache) [
  | none ↦ none
  | some tb ↦ some (record g { attr_cache = tb })
]
