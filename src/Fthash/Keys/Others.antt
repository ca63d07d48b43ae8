-- ===== src/Fthash/Keys/Others.antt =====
-- The operations without a key keep the counter of a table right.
use anfs.Base.{
  ℕ, ◌+◌, ◌≤◌, ◌<◌, ◌≡◌, refl, inl, inr, Bool, true, false, Option, some, List, [], ◌∷◌, length,
  leb, arith, length-append, Bool-cases,
}
use mathlib.Core.Path.{subst}
use anfs.Fthash.{
  FtHashEntry, FtHashTable, list_at, set_list, fthash_new, without_vals, dead_at,
  fthash_un_lock_all, fthash_flush, fthash_set_max_entries, is_locked,
}
use anfs.Fthash.Keys.{dead_entries, live_entries, all_dead, all_live, fthash_bury}
use anfs.Fthash.Lists.{
  total, total-set_list, length-set_list, total-empty_lists, length-empty_lists,
}
use anfs.Fthash.Count.{IsCounted, length-without_vals, fthash_un_lock_all-counts}

module _ {K V : Type 0} where
  pub fthash_new-IsCounted :
      (a b : Bool) (size key_size max ttl : ℕ) (t : FtHashTable K V)
      → fthash_new a b size key_size max ttl ≡ some t
      → IsCounted t
  unfolding fthash_new
  fthash_new-IsCounted true true size key_size max ttl t e = record {
    counted = ground (arith, total-empty_lists (FtHashEntry K V) size);
    bounded = ground arith;
    has_lists = ground (arith, length-empty_lists (FtHashEntry K V) size);
  }
  fthash_new-IsCounted true false size key_size max ttl t e = absurd (ground arith)
  fthash_new-IsCounted false b size key_size max ttl t e = absurd (ground arith)

  length-dead_entries :
      (dead : ℕ) (l : List (FtHashEntry K V))
      → length (dead_entries dead l) + length (live_entries dead l) ≡ length l
  unfolding dead_entries live_entries
  length-dead_entries dead [] = refl
  length-dead_entries dead (ent ∷ rest) = ground (arith, length-dead_entries dead rest)

  length-all_dead :
      (dead : ℕ) (ls : List (List (FtHashEntry K V)))
      → length (all_dead dead ls) + total (all_live dead ls) ≡ total ls
  unfolding all_dead all_live
  length-all_dead dead [] = refl
  length-all_dead dead (l ∷ ls) = omega (
    arith,
    length-dead_entries dead l,
    length-append (dead_entries dead l) (all_dead dead ls),
    length-all_dead dead ls,
  )

  length-all_live :
      (dead : ℕ) (ls : List (List (FtHashEntry K V))) → length (all_live dead ls) ≡ length ls
  unfolding all_live
  length-all_live dead [] = refl
  length-all_live dead (l ∷ ls) = omega (arith, length-all_live dead ls)

  pub fthash_bury-IsCounted :
      (now : ℕ) (t : FtHashTable K V) → IsCounted t → IsCounted (fthash_bury now t)
  unfolding fthash_bury
  fthash_bury-IsCounted now t c = elim (Bool-cases (is_locked t)) [
    | inl locked ↦ rw locked c
    | inr open_table ↦
        let dead : ℕ = dead_at now t in
        let dying : List (FtHashEntry K V) = all_dead dead t.tht_entries in
        rw open_table (record {
          counted = omega (
            arith,
            c.counted,
            length-all_dead dead t.tht_entries,
            length-without_vals dying,
            length-append t.tht_free_entries (without_vals dying),
          );
          bounded = c.bounded;
          has_lists = omega (arith, c.has_lists, length-all_live dead t.tht_entries);
        })
  ]

  pub fthash_flush-IsCounted : (t : FtHashTable K V) → IsCounted t → IsCounted (fthash_flush t)
  unfolding fthash_flush
  fthash_flush-IsCounted t c = record {
    counted = omega (arith, c.counted);
    bounded = omega (arith, c.bounded);
    has_lists = c.has_lists;
  }

  -- A table in which one list is replaced, and the entries that leave it or come to it stand in the
  -- other lists or are counted anew
  pub replaced-IsCounted :
      (t : FtHashTable K V) (hash num : ℕ) (new : List (FtHashEntry K V))
      (free locked : List (FtHashEntry K V)) (cnt : ℕ) (calls : List (Option V))
      → IsCounted t
      → hash < length t.tht_entries
      → num
          + length (list_at hash t.tht_entries)
          + length t.tht_free_entries
          + length t.tht_locked_entries
        ≡ t.tht_num_entries + length new + length free + length locked
      → num ≤ t.tht_max_entries + 10
      → IsCounted (record t {
        tht_entries = set_list hash new t.tht_entries;
        tht_num_entries = num;
        tht_free_entries = free;
        tht_locked_entries = locked;
        tht_lock_cnt = cnt;
        freed = calls;
      })
  replaced-IsCounted t hash num new free locked cnt calls c h e b = record {
    counted = omega (arith, c.counted, total-set_list hash new t.tht_entries h);
    bounded = b;
    has_lists = omega (arith, c.has_lists, length-set_list hash new t.tht_entries);
  }

  pub un_lock_all-IsCounted :
      (now : ℕ) (t t' : FtHashTable K V)
      → t.tht_num_entries
        ≡ total t.tht_entries + length t.tht_free_entries + length t.tht_locked_entries
      → 0 < length t.tht_entries
      → fthash_un_lock_all now t ≡ some t'
      → IsCounted t'
  un_lock_all-IsCounted now t t' counted has_lists e =
      let (t1, r, c', b, mx, lo, cnt) = fthash_un_lock_all-counts now t counted has_lists in
      subst IsCounted (cc) c'

  raised-IsCounted :
      (m : ℕ) (t : FtHashTable K V)
      → IsCounted t
      → leb t.tht_max_entries m ≡ true
      → IsCounted (record t { tht_max_entries = m })
  raised-IsCounted m t c h = record {
    counted = c.counted;
    bounded = ground (arith, c.bounded);
    has_lists = c.has_lists;
  }

  pub set_max_entries-IsCounted :
      (now new_max_entries : ℕ) (t t' : FtHashTable K V)
      → IsCounted t
      → fthash_set_max_entries now new_max_entries t ≡ some t'
      → IsCounted t'
  unfolding fthash_set_max_entries
  set_max_entries-IsCounted now m t t' c e = elim (Bool-cases (leb t.tht_max_entries m)) [
    | inl more ↦ subst IsCounted (ground arith) (raised-IsCounted m t c more)
    | inr fewer ↦
        un_lock_all-IsCounted now (record t { tht_max_entries = m }) t' c.counted c.has_lists
          (ground arith)
  ]
