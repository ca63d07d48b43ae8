-- ===== src/Fthash/Keys/Counted.antt =====
-- The operations by key keep the counter of a table right.
use anfs.Base.{
  ℕ, suc, ◌+◌, ◌≤◌, ◌<◌, ◌≡◌, sym, ap, inl, inr, ◌⊎◌, Bool, Option, none, some, List, [], ◌∷◌,
  length, ltb, arith, length-append, Bool-cases, Option-cases,
}
use mathlib.Core.Path.{subst}
use native.Mathlib.Nat.{mod-lt}
use anfs.Fthash.{
  FtHashEntry, FtHashTable, list_at, set_list, without_val, dead_at, get_free_ent, is_locked,
}
use anfs.Fthash.Keys.{
  Ftremf, fthash_hash, find_entry, lookup_live, lookup_dead, fthash_lookup2, remove_found,
  fthash_remove3, fthash_insert,
}
use anfs.Fthash.Lists.{total, total-set_list, length-set_list}
use anfs.Fthash.Count.{IsCounted}
use anfs.Fthash.Keys.Others.{replaced-IsCounted}

module _ {K V : Type 0} (tht_hash_func : K → ℕ) (same_key : K → K → Bool) where
  pub fthash_hash-lt :
      (t : FtHashTable K V) (key : K)
      → IsCounted t
      → fthash_hash tht_hash_func same_key t key < length t.tht_entries
  unfolding fthash_hash
  fthash_hash-lt t key c = mod-lt (tht_hash_func key) c.has_lists

  pub length-find_entry :
      (key : K) (l : List (FtHashEntry K V)) (ent : FtHashEntry K V)
      (others : List (FtHashEntry K V))
      → find_entry tht_hash_func same_key key l ≡ some (ent, others)
      → length l ≡ suc (length others)
  unfolding find_entry
  length-find_entry key [] ent others e = absurd (ground arith)
  length-find_entry key (x ∷ l) ent others e =
      elim (Option-cases (find_entry tht_hash_func same_key key l)) [
        | inl missing ↦ ground arith
        | inr ((found, left), m) ↦ ground (arith, length-find_entry key l found left m)
      ]

  remove_found-IsCounted :
      (flags : Ftremf) (t : FtHashTable K V) (hash : ℕ) (ent : FtHashEntry K V)
      (others : List (FtHashEntry K V))
      → IsCounted t
      → hash < length t.tht_entries
      → length (list_at hash t.tht_entries) ≡ suc (length others)
      → IsCounted (remove_found tht_hash_func same_key flags hash ent others t).1
  unfolding remove_found
  remove_found-IsCounted Ftremf.move t hash ent others c h e =
      replaced-IsCounted t hash _ others _ _ _ _ c h
        (omega (arith, length-append t.tht_locked_entries (ent ∷ []))) c.bounded
  remove_found-IsCounted Ftremf.free_val t hash ent others c h e =
      replaced-IsCounted t hash _ others _ _ _ _ c h
        (omega (arith, length-append t.tht_free_entries (without_val ent ∷ []))) c.bounded
  remove_found-IsCounted Ftremf.keep_val t hash ent others c h e =
      replaced-IsCounted t hash _ others _ _ _ _ c h
        (omega (arith, length-append t.tht_free_entries (without_val ent ∷ []))) c.bounded

  lookup_dead-IsCounted :
      (t : FtHashTable K V) (hash : ℕ) (ent : FtHashEntry K V) (others : List (FtHashEntry K V))
      → IsCounted t
      → hash < length t.tht_entries
      → length (list_at hash t.tht_entries) ≡ suc (length others)
      → IsCounted (lookup_dead tht_hash_func same_key hash ent others t)
  unfolding lookup_dead
  lookup_dead-IsCounted t hash ent others c h e = elim (Bool-cases (is_locked t)) [
    | inl locked ↦
        rw locked (replaced-IsCounted t hash _ others _ _ _ _ c h (omega arith) c.bounded)
    | inr open_table ↦
        rw open_table (replaced-IsCounted t hash _ others _ _ _ _ c h (omega arith) c.bounded)
  ]

  pub found-cases :
      (t : FtHashTable K V) (key : K)
      → (find_entry tht_hash_func same_key key
            (list_at (fthash_hash tht_hash_func same_key t key) t.tht_entries)
          ≡ none)
        ⊎ ((r : FtHashEntry K V × List (FtHashEntry K V)) × (find_entry tht_hash_func same_key key
                (list_at (fthash_hash tht_hash_func same_key t key) t.tht_entries)
              ≡ some r))
  found-cases t key = Option-cases _

  pub fthash_remove3-IsCounted :
      (flags : Ftremf) (key : K) (t : FtHashTable K V)
      → IsCounted t
      → IsCounted (fthash_remove3 tht_hash_func same_key flags key t).1
  unfolding fthash_remove3
  fthash_remove3-IsCounted flags key t c = elim (found-cases t key) [
    | inl missing ↦ rw (missing, fthash_remove3) c
    | inr ((ent, others), e) ↦
        rw (e, fthash_remove3)
          (remove_found-IsCounted flags t _ ent others c (fthash_hash-lt t key c)
            (length-find_entry key _ ent others e))
  ]

  pub fthash_lookup2-IsCounted :
      (now : ℕ) (key : K) (t : FtHashTable K V)
      → IsCounted t
      → IsCounted (fthash_lookup2 tht_hash_func same_key now key t).1
  unfolding fthash_lookup2 lookup_live
  fthash_lookup2-IsCounted now key t c = elim (found-cases t key) [
    | inl missing ↦ rw (missing, fthash_lookup2) c
    | inr ((ent, others), e) ↦
        let l = length-find_entry key _ ent others e in
        elim (Bool-cases (ltb ent.the_birth (dead_at now t))) [
          | inl dead ↦
              rw (e, dead, fthash_lookup2)
                (lookup_dead-IsCounted t _ ent others c (fthash_hash-lt t key c) l)
          | inr live ↦
              rw (e, live, fthash_lookup2)
                (replaced-IsCounted t _ _ (ent ∷ others) _ _ _ _ c (fthash_hash-lt t key c)
                  (omega arith) c.bounded)
        ]
  ]

  pub get_free_ent-counts :
      (memory : Bool) (t t' : FtHashTable K V)
      → get_free_ent memory t ≡ some t'
      → (t'.tht_num_entries + length t.tht_free_entries
          ≡ t.tht_num_entries + length t'.tht_free_entries + 1)
        × (t'.tht_entries ≡ t.tht_entries)
        × (t'.tht_locked_entries ≡ t.tht_locked_entries)
        × (t'.tht_max_entries ≡ t.tht_max_entries)
        × ((t'.tht_num_entries ≡ t.tht_num_entries) ⊎ (t'.tht_num_entries ≤ t.tht_max_entries + 10))
  unfolding get_free_ent
  get_free_ent-counts memory t t' e = ground arith

  -- The table after an insertion, once `GetFreeEnt` made `t` of it
  abbrev pub inserted : (hash now : ℕ) → K → Option V → FtHashTable K V → FtHashTable K V
  inserted hash now key val t = record t {
    tht_entries =
        set_list hash
          (record { the_key = key; the_val = val; the_birth = now } ∷ list_at hash t.tht_entries)
          t.tht_entries;
  }

  pub fthash_insert-inserted :
      (memory : Bool) (now : ℕ) (key : K) (val : Option V) (t t' : FtHashTable K V)
      → fthash_insert tht_hash_func same_key memory now key val t ≡ some t'
      → (t1 : FtHashTable K V) × (get_free_ent memory t ≡ some t1)
        × (t' ≡ inserted (fthash_hash tht_hash_func same_key t key) now key val t1)
  unfolding fthash_insert
  fthash_insert-inserted memory now key val t t' e = elim (Option-cases (get_free_ent memory t)) [
    | inl full ↦ absurd (ground arith)
    | inr (t1, got) ↦ (t1, got, ground arith)
  ]

  inserted-IsCounted :
      (memory : Bool) (hash now : ℕ) (key : K) (val : Option V) (t t1 : FtHashTable K V)
      → IsCounted t
      → hash < length t.tht_entries
      → get_free_ent memory t ≡ some t1
      → IsCounted (inserted hash now key val t1)
  inserted-IsCounted memory hash now key val t t1 c h e =
      let (n, es, lo, mx, b) = get_free_ent-counts memory t t1 e in
      let len : length t1.tht_entries ≡ length t.tht_entries = ap length es in
      let tot : total t1.tht_entries ≡ total t.tht_entries = ap total es in
      let lk : length t1.tht_locked_entries ≡ length t.tht_locked_entries = ap length lo in
      let set =
        total-set_list hash
          (record { the_key = key; the_val = val; the_birth = now } ∷ list_at hash t1.tht_entries)
          t1.tht_entries (omega arith) in
      record {
        counted = omega (arith, c.counted);
        bounded = ground (arith, c.bounded);
        has_lists = omega (
          arith,
          c.has_lists,
          length-set_list hash
              (record { the_key = key; the_val = val; the_birth = now }
                ∷ list_at hash t1.tht_entries)
              t1.tht_entries,
        );
      }

  pub fthash_insert-IsCounted :
      (memory : Bool) (now : ℕ) (key : K) (val : Option V) (t t' : FtHashTable K V)
      → IsCounted t
      → fthash_insert tht_hash_func same_key memory now key val t ≡ some t'
      → IsCounted t'
  fthash_insert-IsCounted memory now key val t t' c e =
      let (t1, got, r) = fthash_insert-inserted memory now key val t t' e in
      subst IsCounted (sym r)
        (inserted-IsCounted memory _ now key val t t1 c (fthash_hash-lt t key c) got)
