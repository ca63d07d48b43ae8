-- ===== src/Fthash/Keys/Locked.antt =====
-- No value is freed while a table is locked.
use anfs.Base.{
  ℕ, ◌≤◌, ◌<◌, ◌≡◌, refl, ap, ◌∙◌, inl, inr, Bool, Option, none, some, List, ltb, arith, Bool-cases,
}
use anfs.Fthash.{FtHashEntry, FtHashTable, get_free_ent, dead_at}
use anfs.Fthash.Keys.{
  fthash_bury, Ftremf, lookup_live, lookup_dead, fthash_lookup2, remove_found, fthash_remove3,
  fthash_insert,
}
use anfs.Fthash.Keys.Counted.{found-cases, fthash_insert-inserted}

module _ {K V : Type 0} (tht_hash_func : K → ℕ) (same_key : K → K → Bool) where
  -- A table that still is locked, and where no value was freed
  abbrev pub Holds : FtHashTable K V → FtHashTable K V → Type 0
  Holds t t' = (t'.freed ≡ t.freed) × (t.tht_lock_cnt ≤ t'.tht_lock_cnt)

  lookup_dead-Holds :
      (hash : ℕ) (ent : FtHashEntry K V) (others : List (FtHashEntry K V)) (t : FtHashTable K V)
      → 0 < t.tht_lock_cnt
      → Holds t (lookup_dead tht_hash_func same_key hash ent others t)
  unfolding lookup_dead
  lookup_dead-Holds hash ent others t h = ground arith

  fthash_lookup2-Holds :
      (now : ℕ) (key : K) (t : FtHashTable K V)
      → 0 < t.tht_lock_cnt
      → Holds t (fthash_lookup2 tht_hash_func same_key now key t).1
  unfolding fthash_lookup2 lookup_live
  fthash_lookup2-Holds now key t h = elim (found-cases tht_hash_func same_key t key) [
    | inl missing ↦ rw (missing, fthash_lookup2) (refl, omega arith)
    | inr ((ent, others), e) ↦ elim (Bool-cases (ltb ent.the_birth (dead_at now t))) [
      | inl dead ↦ rw (e, dead, fthash_lookup2) (lookup_dead-Holds _ ent others t h)
      | inr live ↦ rw (e, live, fthash_lookup2) (refl, omega arith)
    ]
  ]

  mark_removed-Holds :
      (key : K) (t : FtHashTable K V)
      → Holds t (fthash_remove3 tht_hash_func same_key Ftremf.move key t).1
  unfolding fthash_remove3 remove_found
  mark_removed-Holds key t = elim (found-cases tht_hash_func same_key t key) [
    | inl missing ↦ rw (missing, fthash_remove3) (refl, omega arith)
    | inr ((ent, others), e) ↦ rw (e, fthash_remove3) (refl, omega arith)
  ]

  bury-Holds : (now : ℕ) (t : FtHashTable K V) → 0 < t.tht_lock_cnt → Holds t (fthash_bury now t)
  unfolding fthash_bury
  bury-Holds now t h = ground arith

  get_free_ent-Holds :
      (memory : Bool) (t t1 : FtHashTable K V) → get_free_ent memory t ≡ some t1 → Holds t t1
  unfolding get_free_ent
  get_free_ent-Holds memory t t1 e = ground arith

  -- The same of an insert, where it succeeds
  abbrev pub InsertHolds : FtHashTable K V → Option (FtHashTable K V) → Type 0
  InsertHolds t none = Unit {0}
  InsertHolds t (some t') = Holds t t'

  insert-Holds :
      (now : ℕ) (key : K) (memory : Bool) (val : Option V) (t : FtHashTable K V)
      (r : Option (FtHashTable K V))
      → fthash_insert tht_hash_func same_key memory now key val t ≡ r
      → InsertHolds t r
  insert-Holds now key memory val t none e = tt
  insert-Holds now key memory val t (some t') e =
      let (t1, got, r) = fthash_insert-inserted tht_hash_func same_key memory now key val t t' e in
      (
        ap (λ x. x.freed) r ∙ (get_free_ent-Holds memory t t1 got).0,
        omega (arith, ap (λ x. x.tht_lock_cnt) r, get_free_ent-Holds memory t t1 got),
      )

  -- While a table is locked, `fthash_Lookup2`, `fthash_MarkRemoved` and `fthash_Bury` free no value
  -- and leave the table locked at least as often; so does an `fthash_Insert`, if it succeeds.
  pub locked-Holds :
      (now : ℕ) (key : K) (memory : Bool) (val : Option V) (t : FtHashTable K V)
      → 0 < t.tht_lock_cnt
      → Holds t (fthash_lookup2 tht_hash_func same_key now key t).1
        × Holds t (fthash_remove3 tht_hash_func same_key Ftremf.move key t).1
        × Holds t (fthash_bury now t)
        × InsertHolds t (fthash_insert tht_hash_func same_key memory now key val t)
  locked-Holds now key memory val t h = (
    fthash_lookup2-Holds now key t h,
    mark_removed-Holds key t,
    bury-Holds now t h,
    insert-Holds now key memory val t _ refl,
  )
