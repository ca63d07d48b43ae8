-- ===== src/Fthash/Count.antt =====
-- The counter of entries of a table, and its bound.
use anfs.Base.{
  ℕ, zero, suc, ◌+◌, ◌-◌, ◌%◌, ◌≤◌, ◌<◌, min, ◌≡◌, refl, inl, inr, ◌⊎◌, false, some, List, [], ◌∷◌,
  ◌++◌, length, reverse, take, drop, ltb, arith, length-append, length-take, Bool-cases,
}
use anfs.Fthash.{
  FtHashEntry, FtHashTable, without_vals, vals_set, drop_free, evict, evict_from, unlocked, trimmed,
  fthash_un_lock_all,
}
use anfs.Fthash.Lists.{total, total-rotate, length-rotate}

-- `tht_NumEntries` is the number of entries in all lists, at most ten more than allowed, and there
-- is a list for every hash value.
pub record IsCounted {K V : Type 0} (t : FtHashTable K V) : Type 0 where
  pub counted :
      t.tht_num_entries
      ≡ total t.tht_entries + length t.tht_free_entries + length t.tht_locked_entries
  pub bounded : t.tht_num_entries ≤ t.tht_max_entries + 10
  pub has_lists : 0 < length t.tht_entries

module _ {K V : Type 0} where
  pub length-without_vals : (l : List (FtHashEntry K V)) → length (without_vals l) ≡ length l
  unfolding without_vals
  length-without_vals [] = refl
  length-without_vals (ent ∷ rest) = omega (arith, length-without_vals rest)

  -- The first removal keeps the counter right, and stops only if the limit is met or no free entry is
  -- left.
  drop_free-counts :
      (num max : ℕ) (l : List (FtHashEntry K V))
      → length l ≤ num
      → ((drop_free num max l).1 + length l ≡ num + length (drop_free num max l).0)
        × ((ltb max (drop_free num max l).1 ≡ false) ⊎ (length (drop_free num max l).0 ≡ 0))
        × ((drop_free num max l).1 ≤ num)
  unfolding drop_free
  drop_free-counts num max [] h = ground arith
  drop_free-counts num max (the ∷ rest) h =
      ground (arith, drop_free-counts (num - 1) max rest (omega arith))

  -- The second removal finds enough entries, and removes exactly `i`.
  evict-removes :
      (i : ℕ) (ls : List (List (FtHashEntry K V)))
      → i ≤ total ls
      → (kept : List (List (FtHashEntry K V))) × (removed : List (FtHashEntry K V)) × (evict i ls
          ≡ some (kept, removed))
        × (total kept + i ≡ total ls)
        × (length kept ≡ length ls)
  unfolding evict
  evict-removes zero ls h = (ls, [], refl, omega arith, refl)
  evict-removes (suc i) [] h = absurd (omega arith)
  evict-removes (suc i) (l ∷ ls) h =
      let (kept, removed, e, n, m) =
        evict-removes (suc i - min (suc i) (length l)) ls (omega arith) in
      (
        take (length l - min (suc i) (length l)) l ∷ kept,
        reverse (drop (length l - min (suc i) (length l)) l) ++ removed,
        ground (arith, e),
        omega (arith, length-take (length l - min (suc i) (length l)) l),
        omega arith,
      )

  evict_from-IsCounted :
      (rem_start i : ℕ) (t : FtHashTable K V)
      → 0 < length t.tht_entries
      → t.tht_max_entries + i
        ≡ total t.tht_entries + length t.tht_free_entries + length t.tht_locked_entries
      → i ≤ total t.tht_entries
      → (t' : FtHashTable K V) × (evict_from rem_start i t ≡ some t')
        × IsCounted t'
        × (t'.tht_num_entries ≡ t.tht_max_entries)
        × (t'.tht_max_entries ≡ t.tht_max_entries)
        × (t'.tht_locked_entries ≡ t.tht_locked_entries)
        × (t'.tht_lock_cnt ≡ t.tht_lock_cnt)
  unfolding evict_from
  evict_from-IsCounted rem_start i t n c h =
      let (kept, removed, e, tot, len) =
        evict-removes i (drop rem_start t.tht_entries ++ take rem_start t.tht_entries)
          (omega (arith, total-rotate rem_start t.tht_entries)) in
      let at : ℕ = length t.tht_entries - rem_start in
      (
        record t {
          tht_entries = drop at kept ++ take at kept;
          tht_num_entries = t.tht_max_entries;
          freed = t.freed ++ vals_set removed;
        },
        ground (arith, e),
        record {
          counted = omega (arith, total-rotate rem_start t.tht_entries, total-rotate at kept);
          bounded = omega arith;
          has_lists = omega (arith, length-rotate rem_start t.tht_entries, length-rotate at kept);
        },
        refl,
        refl,
        refl,
        refl,
      )

  trimmed-counts :
      (t : FtHashTable K V)
      → t.tht_num_entries
        ≡ total t.tht_entries + length t.tht_free_entries + length t.tht_locked_entries
      → (total t.tht_entries + length (trimmed (unlocked t)).tht_free_entries
          ≡ (trimmed (unlocked t)).tht_num_entries)
        × ((ltb t.tht_max_entries (trimmed (unlocked t)).tht_num_entries ≡ false)
            ⊎ (length (trimmed (unlocked t)).tht_free_entries ≡ 0))
  unfolding trimmed unlocked
  trimmed-counts t counted =
      let free : ℕ = length t.tht_free_entries + length t.tht_locked_entries in
      let len : length (t.tht_free_entries ++ without_vals t.tht_locked_entries) ≡ free = omega (
        arith,
        length-append t.tht_free_entries (without_vals t.tht_locked_entries),
        length-without_vals t.tht_locked_entries,
      ) in
      let (n, stop, le) =
        drop_free-counts t.tht_num_entries t.tht_max_entries
          (t.tht_free_entries ++ without_vals t.tht_locked_entries) (omega (arith, counted)) in
      (omega (arith, counted), stop)

  pub fthash_un_lock_all-counts :
      (now : ℕ) (t : FtHashTable K V)
      → t.tht_num_entries
        ≡ total t.tht_entries + length t.tht_free_entries + length t.tht_locked_entries
      → 0 < length t.tht_entries
      → (t' : FtHashTable K V) × (fthash_un_lock_all now t ≡ some t')
        × IsCounted t'
        × (t'.tht_num_entries ≤ t.tht_max_entries)
        × (t'.tht_max_entries ≡ t.tht_max_entries)
        × (t'.tht_locked_entries ≡ [])
        × (t'.tht_lock_cnt ≡ 0)
  unfolding fthash_un_lock_all trimmed unlocked
  fthash_un_lock_all-counts now t counted has_lists =
      let (n, stop) = trimmed-counts t counted in
      elim (Bool-cases (ltb t.tht_max_entries (trimmed (unlocked t)).tht_num_entries)) [
        | inl over ↦
            let (t', e, c', num, max, lo, cnt) =
              evict_from-IsCounted (now % length t.tht_entries)
                ((trimmed (unlocked t)).tht_num_entries - t.tht_max_entries) (trimmed (unlocked t))
                has_lists (ground arith) (ground arith) in
            (t', ground arith, c', omega arith, max, lo, cnt)
        | inr under ↦ (
          trimmed (unlocked t),
          ground arith,
          record { counted = omega arith; bounded = ground arith; has_lists = has_lists },
          ground arith,
          refl,
          refl,
          refl,
        )
      ]

  -- `fthash_UnLockAll` of a counted table ends. No entry is locked then, there are no more entries
  -- than allowed, and their number is right.
  pub fthash_un_lock_all-IsCounted :
      (now : ℕ) (t : FtHashTable K V)
      → IsCounted t
      → (t' : FtHashTable K V) × (fthash_un_lock_all now t ≡ some t')
        × IsCounted t'
        × (t'.tht_num_entries ≤ t.tht_max_entries)
        × (t'.tht_max_entries ≡ t.tht_max_entries)
        × (t'.tht_locked_entries ≡ [])
        × (t'.tht_lock_cnt ≡ 0)
  fthash_un_lock_all-IsCounted now t c = fthash_un_lock_all-counts now t c.counted c.has_lists
