-- ===== src/Dcache/Table.antt =====
-- The operations of src/dcache.c on the whole table.
use anfs.Base.{ℕ, Option, none, some, List}
use anfs.Fthash.{
  fthash_delete, fthash_un_lock_all, fthash_flush, fthash_set_max_entries, fthash_set_time_to_live,
}
use anfs.Fthash.Keys.{fthash_bury}
use anfs.Dcache.{DirCache}

-- `dc_Cleanup`: the directories that are freed
unfoldable pub dc_cleanup : DirCache → List (Option ℕ)
unfolding fthash_delete
dc_cleanup g = fthash_delete g.dir_cache

-- `dc_UnLockAll`; `none` is a loop that does not end.
unfoldable pub dc_un_lock_all : (now : ℕ) → DirCache → Option DirCache
unfolding fthash_un_lock_all
dc_un_lock_all now g = elim (fthash_un_lock_all now g.dir_cache) [
  | none ↦ none
  | some tb ↦ some (record g { dir_cache = tb })
]

-- `dc_Flush`
unfoldable pub dc_flush : DirCache → DirCache
unfolding fthash_flush
dc_flush g = record g { dir_cache = fthash_flush g.dir_cache }

-- `dc_SetCacheTimeout`; `none` is a negative number.
unfoldable pub dc_set_cache_timeout : Option ℕ → DirCache → Option ℕ × DirCache
unfolding fthash_set_time_to_live
dc_set_cache_timeout timeout g =
    let (old, tb) = fthash_set_time_to_live timeout g.dir_cache in
    (old, record g { dir_cache = tb })

-- `dc_Bury`
unfoldable pub dc_bury : (now : ℕ) → DirCache → DirCache
unfolding fthash_bury
dc_bury now g = record g { dir_cache = fthash_bury now g.dir_cache }

-- `dc_SetCacheSize`
unfoldable pub dc_set_cache_size : (now new_size : ℕ) → DirCache → Option DirCache
unfolding fthash_set_max_entries
dc_set_cache_size now new_size g = elim (fthash_set_max_entries now new_size g.dir_cache) [
  | none ↦ none
  | some tb ↦ some (record g { dir_cache = tb })
]
