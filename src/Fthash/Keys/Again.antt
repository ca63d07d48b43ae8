-- ===== src/Fthash/Keys/Again.antt =====
-- A second lookup finds what the first one found.
use anfs.Base.{
  ℕ, ◌<◌, ◌≡◌, refl, ap, ◌∙◌, sym, inl, inr, Bool, true, false, Option, none, some, List, [], ◌∷◌,
  length, ltb, arith, ◌%◌, Bool-cases, Option-cases,
}
use anfs.Fthash.{FtHashEntry, FtHashTable, list_at, dead_at, get_free_ent}
use anfs.Fthash.Keys.{
  fthash_hash, find_entry, lookup_live, lookup_dead, fthash_lookup2, fthash_lookup, fthash_insert,
}
use anfs.Fthash.Lists.{list_at-set_list, length-set_list}
use anfs.Fthash.Count.{IsCounted}
use anfs.Fthash.Keys.Counted.{fthash_hash-lt, found-cases, fthash_insert-inserted}
use anfs.Fthash.Keys.Round.{lookup_first, get_free_ent-entries}

module _ {K V : Type 0} (tht_hash_func : K → ℕ) (same_key : K → K → Bool) where
  find_entry-same :
      (key : K) (l : List (FtHashEntry K V)) (ent : FtHashEntry K V)
      (others : List (FtHashEntry K V))
      → find_entry tht_hash_func same_key key l ≡ some (ent, others)
      → same_key ent.the_key key ≡ true
  unfolding find_entry
  find_entry-same key [] ent others e = absurd (ground arith)
  find_entry-same key (x ∷ l) ent others e = elim (Bool-cases (same_key x.the_key key)) [
    | inl same ↦ cc
    | inr other ↦ elim (Option-cases (find_entry tht_hash_func same_key key l)) [
      | inl missing ↦ ground arith
      | inr ((found, left), m) ↦ ground (arith, find_entry-same key l found left m)
    ]
  ]

  pub fthash_lookup-fthash_lookup2 :
      (now : ℕ) (key : K) (t : FtHashTable K V)
      → (fthash_lookup tht_hash_func same_key now key t).1
        ≡ (fthash_lookup2 tht_hash_func same_key now key t).1
  unfolding fthash_lookup
  fthash_lookup-fthash_lookup2 now key t =
      elim (Option-cases (fthash_lookup2 tht_hash_func same_key now key t).0) [
        | inl missing ↦ rw (missing, fthash_lookup) refl
        | inr (ent, found) ↦ rw (found, fthash_lookup) refl
      ]

  lookup_missing :
      (now : ℕ) (key : K) (t : FtHashTable K V)
      → find_entry tht_hash_func same_key key
          (list_at (fthash_hash tht_hash_func same_key t key) t.tht_entries)
        ≡ none
      → (fthash_lookup tht_hash_func same_key now key t).0 ≡ none
  unfolding fthash_lookup fthash_lookup2
  lookup_missing now key t m = rw (m, fthash_lookup, fthash_lookup2) refl

  lookup_found :
      (now : ℕ) (key : K) (t : FtHashTable K V) (ent : FtHashEntry K V)
      (others : List (FtHashEntry K V))
      → find_entry tht_hash_func same_key key
          (list_at (fthash_hash tht_hash_func same_key t key) t.tht_entries)
        ≡ some (ent, others)
      → ltb ent.the_birth (dead_at now t) ≡ false
      → fthash_lookup tht_hash_func same_key now key t ≡ (
        ent.the_val,
        lookup_live tht_hash_func same_key (fthash_hash tht_hash_func same_key t key) ent others t,
      )
  unfolding fthash_lookup fthash_lookup2
  lookup_found now key t ent others m live =
      let two : fthash_lookup2 tht_hash_func same_key now key t ≡ (
        some ent,
        lookup_live tht_hash_func same_key (fthash_hash tht_hash_func same_key t key) ent others t,
      ) =
        rw (m, live, fthash_lookup2) refl in
      rw (two, fthash_lookup) (ap (λ r. (ent.the_val, r.1)) two)

  lookup_found_dead :
      (now : ℕ) (key : K) (t : FtHashTable K V) (ent : FtHashEntry K V)
      (others : List (FtHashEntry K V))
      → find_entry tht_hash_func same_key key
          (list_at (fthash_hash tht_hash_func same_key t key) t.tht_entries)
        ≡ some (ent, others)
      → ltb ent.the_birth (dead_at now t) ≡ true
      → (fthash_lookup tht_hash_func same_key now key t).0 ≡ none
  unfolding fthash_lookup fthash_lookup2
  lookup_found_dead now key t ent others m dead = rw (m, dead, fthash_lookup, fthash_lookup2) refl

  -- The entry that a lookup found is the one that the next lookup finds.
  found_again :
      (now : ℕ) (key : K) (t : FtHashTable K V) (ent : FtHashEntry K V)
      (others : List (FtHashEntry K V))
      → fthash_hash tht_hash_func same_key t key < length t.tht_entries
      → same_key ent.the_key key ≡ true
      → ltb ent.the_birth (dead_at now t) ≡ false
      → (fthash_lookup tht_hash_func same_key now key (
          lookup_live tht_hash_func same_key
            (fthash_hash tht_hash_func same_key t key)
            ent
            others
            t)).0
        ≡ ent.the_val
  unfolding lookup_live dead_at fthash_hash
  found_again now key t ent others h same live =
      let hash = fthash_hash tht_hash_func same_key t key in
      let t' = lookup_live tht_hash_func same_key hash ent others t in
      let at : fthash_hash tht_hash_func same_key t' key ≡ hash =
        ap (λ n. tht_hash_func key % n) (length-set_list hash (ent ∷ others) t.tht_entries) in
      (lookup_first tht_hash_func same_key now key ent others t'
        (ap (λ i. list_at i t'.tht_entries) at
          ∙ list_at-set_list hash (ent ∷ others) t.tht_entries h)
        same live).0

  pub fthash_lookup_again :
      (now : ℕ) (key : K) (v : V) (t : FtHashTable K V)
      → IsCounted t
      → (fthash_lookup tht_hash_func same_key now key t).0 ≡ some v
      → (fthash_lookup tht_hash_func same_key now key
          (fthash_lookup tht_hash_func same_key now key t).1).0
        ≡ some v
  fthash_lookup_again now key v t c e = elim (found-cases tht_hash_func same_key t key) [
    | inl missing ↦ absurd (none-some (sym (lookup_missing now key t missing) ∙ e))
    | inr ((ent, others), m) ↦ elim (Bool-cases (ltb ent.the_birth (dead_at now t))) [
      | inl dead ↦ absurd (none-some (sym (lookup_found_dead now key t ent others m dead) ∙ e))
      | inr live ↦
          let l = lookup_found now key t ent others m live in
          ap (λ r. (fthash_lookup tht_hash_func same_key now key r.1).0) l
          ∙ found_again now key t ent others (fthash_hash-lt tht_hash_func same_key t key c)
              (find_entry-same key _ ent others m) live
          ∙ ap (λ r. r.0) (sym l)
          ∙ e
    ]
  ]
    where
      none-some : {A : Type 0} {x : A} → none ≡ some x → ⊥
      none-some h = cc

  lookup_dead-ttl :
      (hash : ℕ) (ent : FtHashEntry K V) (others : List (FtHashEntry K V)) (t : FtHashTable K V)
      → (lookup_dead tht_hash_func same_key hash ent others t).tht_ttl ≡ t.tht_ttl
  unfolding lookup_dead
  lookup_dead-ttl hash ent others t = ground arith

  pub fthash_insert-none :
      (memory : Bool) (now : ℕ) (key : K) (val : Option V) (t : FtHashTable K V)
      → fthash_insert tht_hash_func same_key memory now key val t ≡ none
      → get_free_ent memory t ≡ none
  unfolding fthash_insert
  fthash_insert-none memory now key val t e = elim (Option-cases (get_free_ent memory t)) [
    | inl missing ↦ missing
    | inr (t1, got) ↦ ground arith
  ]

  -- Neither a lookup nor an insertion changes the time that an entry lives.
  pub fthash_lookup-ttl :
      (now : ℕ) (key : K) (t : FtHashTable K V)
      → (fthash_lookup tht_hash_func same_key now key t).1.tht_ttl ≡ t.tht_ttl
  unfolding fthash_lookup2 lookup_live lookup_dead
  fthash_lookup-ttl now key t =
      ap (λ x. x.tht_ttl) (fthash_lookup-fthash_lookup2 now key t)
      ∙ elim (found-cases tht_hash_func same_key t key) [
        | inl missing ↦ rw (missing, fthash_lookup2) refl
        | inr ((ent, others), m) ↦ elim (Bool-cases (ltb ent.the_birth (dead_at now t))) [
          | inl dead ↦ rw (m, dead, fthash_lookup2) (lookup_dead-ttl _ ent others t)
          | inr live ↦ rw (m, live, fthash_lookup2) refl
        ]
      ]

  pub fthash_insert-ttl :
      (memory : Bool) (now : ℕ) (key : K) (val : Option V) (t t' : FtHashTable K V)
      → fthash_insert tht_hash_func same_key memory now key val t ≡ some t'
      → t'.tht_ttl ≡ t.tht_ttl
  fthash_insert-ttl memory now key val t t' e =
      let (t1, got, r) = fthash_insert-inserted tht_hash_func same_key memory now key val t t' e in
      ap (λ x. x.tht_ttl) r ∙ (get_free_ent-entries tht_hash_func same_key memory t t1 got).1
