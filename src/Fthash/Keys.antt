-- ===== src/Fthash/Keys.antt =====
-- The operations of src/common/fthash.c that look for a key or for dead entries.
pub mod Others
pub mod Counted
pub mod Steps
pub mod Round
pub mod Again
pub mod Locked
use anfs.Base.{
  ℕ, ◌+◌, ◌%◌, Bool, Option, none, some, List, [], ◌∷◌, ◌++◌, length, ltb, if◌then◌else◌,
}
use anfs.Fthash.{
  FtHashEntry, FtHashTable, list_at, set_list, without_val, without_vals, dead_at, is_locked,
  get_free_ent, vals,
}

-- The entries of a list that are dead, and the others
pub dead_entries : {K V : Type 0} → (dead : ℕ) → List (FtHashEntry K V) → List (FtHashEntry K V)
dead_entries dead [] = []
dead_entries dead (ent ∷ rest) =
    let further = dead_entries dead rest in
    if ltb ent.the_birth dead then ent ∷ further else further

pub live_entries : {K V : Type 0} → (dead : ℕ) → List (FtHashEntry K V) → List (FtHashEntry K V)
live_entries dead [] = []
live_entries dead (ent ∷ rest) =
    let further = live_entries dead rest in
    if ltb ent.the_birth dead then further else ent ∷ further

-- The loop of `fthash_Bury` over all lists: the dead entries, and the lists of the others
pub all_dead : {K V : Type 0} → (dead : ℕ) → List (List (FtHashEntry K V)) → List (FtHashEntry K V)
unfolding dead_entries
all_dead dead [] = []
all_dead dead (l ∷ ls) = dead_entries dead l ++ all_dead dead ls

pub all_live :
    {K V : Type 0} → (dead : ℕ) → List (List (FtHashEntry K V)) → List (List (FtHashEntry K V))
unfolding live_entries
all_live dead [] = []
all_live dead (l ∷ ls) = live_entries dead l ∷ all_live dead ls

-- `fthash_Bury`
unfoldable pub fthash_bury : {K V : Type 0} → (now : ℕ) → FtHashTable K V → FtHashTable K V
unfolding all_dead all_live vals
fthash_bury now t = if is_locked t then t else record t {
  tht_entries = all_live (dead_at now t) t.tht_entries;
  tht_free_entries = t.tht_free_entries ++ without_vals (all_dead (dead_at now t) t.tht_entries);
  freed = t.freed ++ vals (all_dead (dead_at now t) t.tht_entries);
}

-- The flags of `fthash_Remove3`: 0, `FTREMF_FREE_VAL` and `FTREMF_MOVE`
pub data Ftremf : Type 0 where
  keep_val free_val move : Ftremf

module _ {K V : Type 0} (tht_hash_func : K → ℕ) (same_key : K → K → Bool) where
  -- `fthash_Hash`
  unfoldable pub fthash_hash : FtHashTable K V → K → ℕ
  fthash_hash t key = tht_hash_func key % length t.tht_entries

  -- The first entry with the key, and the list without it
  pub find_entry : K → List (FtHashEntry K V) → Option (FtHashEntry K V × List (FtHashEntry K V))
  find_entry key [] = none
  find_entry key (ent ∷ rest) =
      let further = find_entry key rest in
      if same_key ent.the_key key
      then some (ent, rest)
      else (elim further [ none ↦ none | some (found, others) ↦ some (found, ent ∷ others) ])

  -- `fthash_Lookup2` of an entry that was found, and is not dead: it moves to the front.
  pub lookup_live :
      (hash : ℕ) → FtHashEntry K V → List (FtHashEntry K V) → FtHashTable K V → FtHashTable K V
  lookup_live hash ent others t = record t {
    tht_entries = set_list hash (ent ∷ others) t.tht_entries;
    tht_lock_cnt = t.tht_lock_cnt + 1;
  }

  -- `fthash_Lookup2` of an entry that was found, and is dead
  pub lookup_dead :
      (hash : ℕ) → FtHashEntry K V → List (FtHashEntry K V) → FtHashTable K V → FtHashTable K V
  lookup_dead hash ent others t =
      if is_locked t
      then record t {
        tht_entries = set_list hash others t.tht_entries;
        tht_lock_cnt = t.tht_lock_cnt + 1;
        tht_locked_entries = ent ∷ t.tht_locked_entries;
      }
      else record t {
        tht_entries = set_list hash others t.tht_entries;
        tht_free_entries = without_val ent ∷ t.tht_free_entries;
        freed = t.freed ++ ent.the_val ∷ [];
      }

  -- `fthash_Lookup2`
  unfoldable pub fthash_lookup2 :
      (now : ℕ) → K → FtHashTable K V → Option (FtHashEntry K V) × FtHashTable K V
  unfolding find_entry lookup_live lookup_dead
  fthash_lookup2 now key t =
      let hash = fthash_hash t key in
      elim (find_entry key (list_at hash t.tht_entries)) [
        | none ↦ (none, t)
        | some (ent, others) ↦
            if ltb ent.the_birth (dead_at now t)
            then (none, lookup_dead hash ent others t)
            else (some ent, lookup_live hash ent others t)
      ]

  -- `fthash_Lookup`; a missing entry and one whose value is NULL give `none`.
  unfoldable pub fthash_lookup : (now : ℕ) → K → FtHashTable K V → Option V × FtHashTable K V
  unfolding fthash_lookup2
  fthash_lookup now key t =
      let (te, t') = fthash_lookup2 now key t in
      elim te [ none ↦ (none, t') | some ent ↦ (ent.the_val, t') ]

  -- `fthash_Remove3` of an entry that was found
  pub remove_found :
      Ftremf
      → (hash : ℕ) → FtHashEntry K V
      → List (FtHashEntry K V)
      → FtHashTable K V
      → Option V × FtHashTable K V
  remove_found move hash ent others t = (
    none,
    record t {
      tht_entries = set_list hash others t.tht_entries;
      tht_locked_entries = t.tht_locked_entries ++ ent ∷ [];
    },
  )
  remove_found free_val hash ent others t = (
    none,
    record t {
      tht_entries = set_list hash others t.tht_entries;
      tht_free_entries = t.tht_free_entries ++ without_val ent ∷ [];
      freed = t.freed ++ ent.the_val ∷ [];
    },
  )
  remove_found keep_val hash ent others t = (
    ent.the_val,
    record t {
      tht_entries = set_list hash others t.tht_entries;
      tht_free_entries = t.tht_free_entries ++ without_val ent ∷ [];
    },
  )

  -- `fthash_Remove3`; `fthash_Remove`, `fthash_Remove2` and `fthash_MarkRemoved` call it with
  -- `free_val`, `keep_val` and `move`.
  unfoldable pub fthash_remove3 : Ftremf → K → FtHashTable K V → Option V × FtHashTable K V
  unfolding find_entry remove_found
  fthash_remove3 flags key t =
      let hash = fthash_hash t key in
      elim (find_entry key (list_at hash t.tht_entries)) [
        | none ↦ (none, t)
        | some (ent, others) ↦ remove_found flags hash ent others t
      ]

  -- `fthash_Insert`; `none` is 0, and leaves the table as it is.
  unfoldable pub fthash_insert :
      (memory : Bool) (now : ℕ) → K → Option V → FtHashTable K V → Option (FtHashTable K V)
  fthash_insert memory now key val t =
      let hash = fthash_hash t key in
      elim (get_free_ent memory t) [
        | none ↦ none
        | some t' ↦ some (record t' {
          tht_entries =
              set_list hash
                (record { the_key = key; the_val = val; the_birth = now }
                  ∷ list_at hash t'.tht_entries)
                t'.tht_entries;
        })
      ]
