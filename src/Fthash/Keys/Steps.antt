-- ===== src/Fthash/Keys/Steps.antt =====
-- What the operations on a hash table keep, by induction on the calls that lead to it.
use anfs.Base.{ℕ, ◌≡◌, Bool, Option, none, some}
use anfs.Fthash.{
  FtHashTable, fthash_new, fthash_un_lock_all, fthash_flush, fthash_set_max_entries, fthash_lock,
  fthash_set_time_to_live,
}
use anfs.Fthash.Keys.{fthash_bury, Ftremf, fthash_lookup2, fthash_remove3, fthash_insert}
use anfs.Fthash.Count.{IsCounted}
use anfs.Fthash.Keys.Others.{
  fthash_new-IsCounted, fthash_bury-IsCounted, fthash_flush-IsCounted, un_lock_all-IsCounted,
  set_max_entries-IsCounted,
}
use anfs.Fthash.Keys.Counted.{
  fthash_remove3-IsCounted, fthash_lookup2-IsCounted, fthash_insert-IsCounted,
}

module _ {K V : Type 0} (tht_hash_func : K → ℕ) (same_key : K → K → Bool) where
  -- One call of an operation that changes the table and returns
  pub data Step : FtHashTable K V → FtHashTable K V → Type 0 where
    lookup :
        {t : FtHashTable K V} (now : ℕ) (key : K)
        → Step t (fthash_lookup2 tht_hash_func same_key now key t).1
    remove :
        {t : FtHashTable K V} (flags : Ftremf) (key : K)
        → Step t (fthash_remove3 tht_hash_func same_key flags key t).1
    insert :
        {t t' : FtHashTable K V} (memory : Bool) (now : ℕ) (key : K) (val : Option V)
        → fthash_insert tht_hash_func same_key memory now key val t ≡ some t'
        → Step t t'
    bury : {t : FtHashTable K V} (now : ℕ) → Step t (fthash_bury now t)
    flush : {t : FtHashTable K V} → Step t (fthash_flush t)
    lock : {t : FtHashTable K V} → Step t (fthash_lock t)
    set_time_to_live :
        {t : FtHashTable K V} (ttl : Option ℕ) → Step t (fthash_set_time_to_live ttl t).1
    un_lock_all :
        {t t' : FtHashTable K V} (now : ℕ) → fthash_un_lock_all now t ≡ some t' → Step t t'
    set_max_entries :
        {t t' : FtHashTable K V} (now new_max_entries : ℕ)
        → fthash_set_max_entries now new_max_entries t ≡ some t'
        → Step t t'

  -- The tables that calls make from a new one
  pub data Reachable : FtHashTable K V → Type 0 where
    new :
        {t : FtHashTable K V} (a b : Bool) (size key_size max ttl : ℕ)
        → fthash_new a b size key_size max ttl ≡ some t
        → Reachable t
    after : {t t' : FtHashTable K V} → Reachable t → Step t t' → Reachable t'

  Step-IsCounted : (t t' : FtHashTable K V) → Step t t' → IsCounted t → IsCounted t'
  unfolding fthash_lock fthash_set_time_to_live
  Step-IsCounted t _ (Step.lookup now key) c =
      fthash_lookup2-IsCounted tht_hash_func same_key now key t c
  Step-IsCounted t _ (Step.remove flags key) c =
      fthash_remove3-IsCounted tht_hash_func same_key flags key t c
  Step-IsCounted t t' (Step.insert memory now key val e) c =
      fthash_insert-IsCounted tht_hash_func same_key memory now key val t t' c e
  Step-IsCounted t _ (Step.bury now) c = fthash_bury-IsCounted now t c
  Step-IsCounted t _ Step.flush c = fthash_flush-IsCounted t c
  Step-IsCounted t _ Step.lock c = record {
    counted = c.counted;
    bounded = c.bounded;
    has_lists = c.has_lists;
  }
  Step-IsCounted t _ (Step.set_time_to_live none) c = c
  Step-IsCounted t _ (Step.set_time_to_live (some ttl)) c = record {
    counted = c.counted;
    bounded = c.bounded;
    has_lists = c.has_lists;
  }
  Step-IsCounted t t' (Step.un_lock_all now e) c =
      un_lock_all-IsCounted now t t' c.counted c.has_lists e
  Step-IsCounted t t' (Step.set_max_entries now m e) c = set_max_entries-IsCounted now m t t' c e

  -- In every table that calls of the operations make from a new one, `tht_NumEntries` is the number
  -- of entries in all lists and at most ten more than `tht_MaxEntries`.
  pub Reachable-IsCounted : (t : FtHashTable K V) → Reachable t → IsCounted t
  Reachable-IsCounted t (Reachable.new a b size key_size max ttl e) =
      fthash_new-IsCounted a b size key_size max ttl t e
  Reachable-IsCounted t' (Reachable.after r step) =
      Step-IsCounted _ t' step (Reachable-IsCounted _ r)
