-- ===== src/Fthash/Keys/Round.antt =====
-- An entry that was inserted is found.
use anfs.Base.{
  ℕ, ◌+◌, ◌≡◌, refl, ap, ◌∙◌, Bool, true, false, Option, some, List, ◌∷◌, length, ltb, arith, ◌%◌,
}
use anfs.Fthash.{FtHashEntry, FtHashTable, list_at, set_list, get_free_ent, dead_at}
use anfs.Fthash.Keys.{
  fthash_hash, find_entry, lookup_live, fthash_lookup2, fthash_lookup, fthash_insert,
}
use anfs.Fthash.Lists.{list_at-set_list, length-set_list}
use anfs.Fthash.Count.{IsCounted}
use anfs.Fthash.Keys.Counted.{fthash_insert-inserted, fthash_hash-lt}

module _ {K V : Type 0} (tht_hash_func : K → ℕ) (same_key : K → K → Bool) where
  abbrev hash_of : FtHashTable K V → K → ℕ
  hash_of t key = fthash_hash tht_hash_func same_key t key

  pub get_free_ent-entries :
      (memory : Bool) (t t1 : FtHashTable K V)
      → get_free_ent memory t ≡ some t1
      → (t1.tht_entries ≡ t.tht_entries)
        × (t1.tht_ttl ≡ t.tht_ttl)
        × (t1.tht_lock_cnt ≡ t.tht_lock_cnt)
  unfolding get_free_ent
  get_free_ent-entries memory t t1 e = ground arith

  -- An entry with the key at the head of its list is the one that a lookup returns, if it lives.
  lookup2_first :
      (later : ℕ) (key : K) (ent : FtHashEntry K V) (rest : List (FtHashEntry K V))
      (t : FtHashTable K V)
      → list_at (hash_of t key) t.tht_entries ≡ ent ∷ rest
      → same_key ent.the_key key ≡ true
      → ltb ent.the_birth (dead_at later t) ≡ false
      → fthash_lookup2 tht_hash_func same_key later key t
        ≡ (some ent, lookup_live tht_hash_func same_key (hash_of t key) ent rest t)
  unfolding fthash_lookup2 find_entry
  lookup2_first later key ent rest t e same live = rw (e, same, live, fthash_lookup2) refl

  pub lookup_first :
      (later : ℕ) (key : K) (ent : FtHashEntry K V) (rest : List (FtHashEntry K V))
      (t : FtHashTable K V)
      → list_at (hash_of t key) t.tht_entries ≡ ent ∷ rest
      → same_key ent.the_key key ≡ true
      → ltb ent.the_birth (dead_at later t) ≡ false
      → ((fthash_lookup tht_hash_func same_key later key t).0 ≡ ent.the_val)
        × ((fthash_lookup tht_hash_func same_key later key t).1.tht_lock_cnt ≡ t.tht_lock_cnt + 1)
  unfolding fthash_lookup lookup_live
  lookup_first later key ent rest t e same live =
      let found = lookup2_first later key ent rest t e same live in
      rw (found, fthash_lookup) (refl, ap (λ r. r.1.tht_lock_cnt) found)

  -- After `fthash_Insert` in a counted table, a lookup of the key gives the new value and locks the
  -- table once more, unless the new entry is dead by then. An older entry with the same key does not
  -- matter. The premise on the comparison is that the key is the same as itself.
  pub fthash_lookup-insert :
      (memory : Bool) (now later : ℕ) (key : K) (val : Option V) (t t' : FtHashTable K V)
      → IsCounted t
      → same_key key key ≡ true
      → fthash_insert tht_hash_func same_key memory now key val t ≡ some t'
      → ltb now (dead_at later t') ≡ false
      → ((fthash_lookup tht_hash_func same_key later key t').0 ≡ val)
        × ((fthash_lookup tht_hash_func same_key later key t').1.tht_lock_cnt ≡ t.tht_lock_cnt + 1)
  unfolding fthash_hash
  fthash_lookup-insert memory now later key val t t' c same e live =
      let (t1, got, r) = fthash_insert-inserted tht_hash_func same_key memory now key val t t' e in
      let (es, ttl, cnt) = get_free_ent-entries memory t t1 got in
      let new : FtHashEntry K V = record { the_key = key; the_val = val; the_birth = now } in
      let ts : t'.tht_entries
          ≡ set_list (hash_of t key) (new ∷ list_at (hash_of t key) t.tht_entries) t.tht_entries =
        ap (λ x. x.tht_entries) r
        ∙ ap (λ x. set_list (hash_of t key) (new ∷ list_at (hash_of t key) x) x) es in
      let len : length t'.tht_entries ≡ length t.tht_entries =
        ap length ts
        ∙ length-set_list (hash_of t key) (new ∷ list_at (hash_of t key) t.tht_entries)
            t.tht_entries in
      let at : hash_of t' key ≡ hash_of t key = ap (λ n. tht_hash_func key % n) len in
      let here : list_at (hash_of t' key) t'.tht_entries
          ≡ new ∷ list_at (hash_of t key) t.tht_entries =
        ap (λ i. list_at i t'.tht_entries) at
        ∙ ap (list_at (hash_of t key)) ts
        ∙ list_at-set_list (hash_of t key) _ t.tht_entries
            (fthash_hash-lt tht_hash_func same_key t key c) in
      let (found, locked) = lookup_first later key new _ t' here same live in
      (found, locked ∙ ap (λ n. n + 1) (ap (λ x. x.tht_lock_cnt) r ∙ cnt))
