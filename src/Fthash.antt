-- ===== src/Fthash.antt =====
-- src/common/fthash.c, the generic cache on a hash table. The header of the file is not in the
-- repository; the fields are those that the code uses. A table keeps a list of entries per hash value,
-- a list of entries to use again, and one of entries that are removed and may still be in use.
-- `tht_HashFunc` and `tht_KeyCmp` are parameters, and so is the time, the result of `fthash_Now`.
-- The calls of `tht_FreeVal` are noted in `freed`.
pub mod Keys
pub mod Lists
pub mod Count
pub mod Tests
use anfs.Base.{
  ℕ, zero, suc, ◌+◌, ◌-◌, ◌%◌, ◌^◌, min, Bool, true, false, ◌||◌, Option, none, some, List, [], ◌∷◌,
  ◌++◌, length, reverse, take, drop, ◌==◌, ltb, leb, if◌then◌else◌,
}

-- `FTHashEntry` with its key
pub record FtHashEntry (K V : Type 0) : Type 0 where
  pub the_key : K
  pub the_val : Option V
  pub the_birth : ℕ

-- `FTHashTable`; `tht_size` is the length of `tht_entries`.
pub record FtHashTable (K V : Type 0) : Type 0 where
  pub tht_entries : List (List (FtHashEntry K V))
  pub tht_free_entries : List (FtHashEntry K V)
  pub tht_locked_entries : List (FtHashEntry K V)
  pub tht_num_entries : ℕ
  pub tht_max_entries : ℕ
  pub tht_lock_cnt : ℕ
  pub tht_ttl : ℕ
  pub freed : List (Option V)

-- The list at an index, and the table of lists with another list there
abbrev pub list_at {ℓ} : {A : Type ℓ} → ℕ → List (List A) → List A
list_at i [] = []
list_at zero (l ∷ ls) = l
list_at (suc i) (l ∷ ls) = list_at i ls

abbrev pub set_list {ℓ} : {A : Type ℓ} → ℕ → List A → List (List A) → List (List A)
set_list i new [] = []
set_list zero new (l ∷ ls) = new ∷ ls
set_list (suc i) new (l ∷ ls) = l ∷ set_list i new ls

-- `n` empty lists
abbrev pub empty_lists {ℓ} : {A : Type ℓ} → ℕ → List (List A)
empty_lists zero = []
empty_lists (suc n) = [] ∷ empty_lists n

module _ {K V : Type 0} where
  -- `fthash_New`; the two flags say whether the memory is got. `none` is NULL.
  unfoldable pub fthash_new :
      (table_memory lists_memory : Bool)
      → (size key_size max_entries ttl : ℕ) → Option (FtHashTable K V)
  fthash_new table_memory lists_memory size key_size max_entries ttl =
      if size == 0 || key_size == 0 || max_entries == 0 || ttl == 0
      then none
      else (elim table_memory [
        | false ↦ none
        | true ↦ elim lists_memory [
          | false ↦ none
          | true ↦ some (record {
            tht_entries = empty_lists size;
            tht_free_entries = [];
            tht_locked_entries = [];
            tht_num_entries = 0;
            tht_max_entries = max_entries;
            tht_lock_cnt = 0;
            tht_ttl = ttl;
            freed = [];
          })
        ]
      ])

  -- The entry after `fthash_FreeVal`
  abbrev pub without_val : FtHashEntry K V → FtHashEntry K V
  without_val ent = record ent { the_val = none }

  -- `fthash_FreeVal` of every entry of a list
  pub without_vals : List (FtHashEntry K V) → List (FtHashEntry K V)
  without_vals [] = []
  without_vals (ent ∷ rest) = without_val ent ∷ without_vals rest

  -- The calls of `tht_FreeVal` for the entries of a list
  pub vals : List (FtHashEntry K V) → List (Option V)
  vals [] = []
  vals (ent ∷ rest) = ent.the_val ∷ vals rest

  -- The calls of `tht_FreeVal` by `fthash_FreeEntry` for the entries of a list
  pub vals_set : List (FtHashEntry K V) → List (Option V)
  vals_set [] = []
  vals_set (ent ∷ rest) = elim ent.the_val [
    | none ↦ vals_set rest
    | some v ↦ some v ∷ vals_set rest
  ]

  -- `fthash_Now() - tht_TTL`, in 32 bits
  unfoldable pub dead_at : (now : ℕ) → FtHashTable K V → ℕ
  dead_at now t = (now + 2 ^ 32 - t.tht_ttl) % 2 ^ 32

  -- `fthash_IsLocked`
  abbrev pub is_locked : FtHashTable K V → Bool
  is_locked t = ltb 0 t.tht_lock_cnt

  -- The loop over the lists in `fthash_Delete`
  pub vals_of_lists : List (List (FtHashEntry K V)) → List (Option V)
  unfolding vals_set
  vals_of_lists [] = []
  vals_of_lists (l ∷ ls) = vals_set l ++ vals_of_lists ls

  -- `fthash_Delete`: all calls of `tht_FreeVal`
  unfoldable pub fthash_delete : FtHashTable K V → List (Option V)
  unfolding vals_set vals_of_lists
  fthash_delete t =
      t.freed
      ++ vals_set t.tht_free_entries
      ++ vals_set t.tht_locked_entries
      ++ vals_of_lists t.tht_entries

  -- The first loop of `fthash_UnLockAll` over the entries that are over the limit: those that stay
  -- free, the number of all entries, and those that are released
  pub drop_free :
      (num max : ℕ) → List (FtHashEntry K V) → List (FtHashEntry K V) × ℕ × List (FtHashEntry K V)
  drop_free num max [] = ([], num, [])
  drop_free num max (the ∷ rest) =
      let (kept, left, released) = drop_free (num - 1) max rest in
      if ltb max num then (kept, left, the ∷ released) else (the ∷ rest, num, [])

  -- The second loop of `fthash_UnLockAll`, over the lists from `RemStart` on: `i` entries are taken
  -- from the ends of the lists. The lists that it went over are empty while `i` is not 0, so it comes
  -- to each once; `none` is the search for a list that is not empty where there is none.
  pub evict :
      (i : ℕ)
      → List (List (FtHashEntry K V))
      → Option (List (List (FtHashEntry K V)) × List (FtHashEntry K V))
  evict zero ls = some (ls, [])
  evict (suc i) [] = none
  evict (suc i) (l ∷ ls) =
      let n = length l - min (suc i) (length l) in
      elim (evict (suc i - min (suc i) (length l)) ls) [
        | none ↦ none
        | some (kept, removed) ↦ some (take n l ∷ kept, reverse (drop n l) ++ removed)
      ]

  -- The second part of `fthash_UnLockAll`, with the lists in the order from `RemStart` on
  pub evict_from : (rem_start : ℕ) → (i : ℕ) → FtHashTable K V → Option (FtHashTable K V)
  unfolding evict vals_set
  evict_from rem_start i t =
      let size = length t.tht_entries in
      elim (evict i (drop rem_start t.tht_entries ++ take rem_start t.tht_entries)) [
        | none ↦ none
        | some (kept, removed) ↦ some (record t {
          tht_entries = drop (size - rem_start) kept ++ take (size - rem_start) kept;
          tht_num_entries = t.tht_max_entries;
          freed = t.freed ++ vals_set removed;
        })
      ]

  -- `fthash_UnLockAll` up to the first removal: every entry that was locked can be used again.
  pub unlocked : FtHashTable K V → FtHashTable K V
  unfolding without_vals vals
  unlocked t = record t {
    tht_free_entries = t.tht_free_entries ++ without_vals t.tht_locked_entries;
    tht_locked_entries = [];
    tht_lock_cnt = 0;
    freed = t.freed ++ vals t.tht_locked_entries;
  }

  -- The first removal: free entries, while there are too many
  pub trimmed : FtHashTable K V → FtHashTable K V
  unfolding drop_free vals_set
  trimmed t =
      let (kept, left, released) =
        drop_free t.tht_num_entries t.tht_max_entries t.tht_free_entries in
      record t {
        tht_free_entries = kept;
        tht_num_entries = left;
        freed = t.freed ++ vals_set released;
      }

  -- `fthash_UnLockAll`; `none` is a loop that does not end.
  unfoldable pub fthash_un_lock_all : (now : ℕ) → FtHashTable K V → Option (FtHashTable K V)
  unfolding unlocked trimmed evict_from
  fthash_un_lock_all now t =
      let t' = trimmed (unlocked t) in
      if ltb t'.tht_max_entries t'.tht_num_entries
      then evict_from (now % length t'.tht_entries) (t'.tht_num_entries - t'.tht_max_entries) t'
      else some t'

  -- `fthash_Flush`
  unfoldable pub fthash_flush : FtHashTable K V → FtHashTable K V
  unfolding vals_set
  fthash_flush t = record t {
    tht_free_entries = [];
    tht_num_entries = t.tht_num_entries - length t.tht_free_entries;
    freed = t.freed ++ vals_set t.tht_free_entries;
  }

  -- `fthash_SetMaxEntries`
  unfoldable pub fthash_set_max_entries :
      (now new_max_entries : ℕ) → FtHashTable K V → Option (FtHashTable K V)
  unfolding fthash_un_lock_all
  fthash_set_max_entries now new_max_entries t =
      if leb t.tht_max_entries new_max_entries
      then some (record t { tht_max_entries = new_max_entries })
      else fthash_un_lock_all now (record t { tht_max_entries = new_max_entries })

  -- `fthash_Lock`
  unfoldable pub fthash_lock : FtHashTable K V → FtHashTable K V
  fthash_lock t = record t { tht_lock_cnt = t.tht_lock_cnt + 1 }

  -- `fthash_SetTimeToLive`; `none` as the argument is a negative number, and as the result -1.
  unfoldable pub fthash_set_time_to_live : Option ℕ → FtHashTable K V → Option ℕ × FtHashTable K V
  fthash_set_time_to_live none t = (none, t)
  fthash_set_time_to_live (some ttl) t = (some t.tht_ttl, record t { tht_ttl = ttl })

  -- `GetFreeEnt`; `memory` says whether a new entry can be allocated. The key and the value of the
  -- entry are set by the caller.
  unfoldable pub get_free_ent : (memory : Bool) → FtHashTable K V → Option (FtHashTable K V)
  get_free_ent memory t = elim t.tht_free_entries [
    | ent ∷ rest ↦ some (record t { tht_free_entries = rest })
    | [] ↦ if leb (t.tht_max_entries + 10) t.tht_num_entries then none else (elim memory [
      | true ↦ some (record t { tht_num_entries = t.tht_num_entries + 1 })
      | false ↦ none
    ])
  ]
