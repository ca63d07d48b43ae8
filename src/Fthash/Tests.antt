-- ===== src/Fthash/Tests.antt =====
-- A table of numbers, and the theorems at it.
use anfs.Base.{ℕ, ◌+◌, ◌≤◌, ◌≡◌, refl, true, some, [], ◌∷◌, ◌==◌, arith}
use anfs.Fthash.{
  FtHashEntry, FtHashTable, fthash_new, fthash_un_lock_all, fthash_delete, get_free_ent, dead_at,
  empty_lists,
}
use anfs.Fthash.Count.{IsCounted, fthash_un_lock_all-IsCounted}
use anfs.Fthash.Keys.{
  Ftremf, fthash_insert, fthash_lookup, fthash_lookup2, fthash_remove3, fthash_bury, fthash_hash,
}
use anfs.Fthash.Keys.Steps.{Step, Reachable, Reachable-IsCounted}
use anfs.Fthash.Keys.Locked.{Holds, InsertHolds, locked-Holds}
use anfs.Fthash.Keys.Round.{fthash_lookup-insert}

abbrev hash_func : ℕ → ℕ
hash_func k = k

abbrev entry : ℕ → ℕ → FtHashEntry ℕ ℕ
entry k v = record { the_key = k; the_val = some v; the_birth = 100 }

abbrev table : FtHashTable ℕ ℕ
table = record {
  tht_entries = [] ∷ (entry 4 40 ∷ entry 1 10 ∷ []) ∷ (entry 2 20 ∷ []) ∷ [];
  tht_free_entries = [];
  tht_locked_entries = entry 7 70 ∷ [];
  tht_num_entries = 4;
  tht_max_entries = 1;
  tht_lock_cnt = 1;
  tht_ttl = 30;
  freed = [];
}

abbrev fresh : FtHashTable ℕ ℕ
fresh = record {
  tht_entries = empty_lists 3;
  tht_free_entries = [];
  tht_locked_entries = [];
  tht_num_entries = 0;
  tht_max_entries = 8;
  tht_lock_cnt = 0;
  tht_ttl = 30;
  freed = [];
}

table-IsCounted : IsCounted table
table-IsCounted = record { counted = refl; bounded = omega arith; has_lists = omega arith }

-- The removal starts at the second list, 100 % 3, and takes its entries from the end.
evicts :
    fthash_un_lock_all 100 table
    ≡ some (record table {
      tht_entries = [] ∷ [] ∷ (entry 2 20 ∷ []) ∷ [];
      tht_locked_entries = [];
      tht_num_entries = 1;
      tht_lock_cnt = 0;
      freed = some 70 ∷ some 10 ∷ some 40 ∷ [];
    })
unfolding fthash_un_lock_all
evicts = refl

deletes : fthash_delete table ≡ some 70 ∷ some 40 ∷ some 10 ∷ some 20 ∷ []
unfolding fthash_delete
deletes = refl

looks_up : (fthash_lookup hash_func ◌==◌ 110 1 table).0 ≡ some 10
unfolding fthash_lookup fthash_hash dead_at
looks_up = refl

fthash_un_lock_all-IsCounted_example :
    (t' : FtHashTable ℕ ℕ) × (fthash_un_lock_all 100 table ≡ some t')
    × IsCounted t'
    × (t'.tht_num_entries ≤ 1)
    × (t'.tht_max_entries ≡ 1)
    × (t'.tht_locked_entries ≡ [])
    × (t'.tht_lock_cnt ≡ 0)
fthash_un_lock_all-IsCounted_example = fthash_un_lock_all-IsCounted 100 table table-IsCounted

abbrev with_nine : FtHashTable ℕ ℕ
with_nine = record table {
  tht_entries =
      (record { the_key = 9; the_val = some 90; the_birth = 105 } ∷ [])
      ∷ (entry 4 40 ∷ entry 1 10 ∷ [])
      ∷ (entry 2 20 ∷ [])
      ∷ [];
  tht_num_entries = 5;
}

inserts : fthash_insert hash_func ◌==◌ true 105 9 (some 90) table ≡ some with_nine
unfolding fthash_insert get_free_ent fthash_hash
inserts = refl

fthash_lookup-insert_example :
    ((fthash_lookup hash_func ◌==◌ 110 9 with_nine).0 ≡ some 90)
    × ((fthash_lookup hash_func ◌==◌ 110 9 with_nine).1.tht_lock_cnt ≡ table.tht_lock_cnt + 1)
unfolding dead_at
fthash_lookup-insert_example =
    fthash_lookup-insert hash_func ◌==◌ true 105 110 9 (some 90) table with_nine table-IsCounted
      refl inserts refl

locked-Holds_example :
    Holds hash_func ◌==◌ table (fthash_lookup2 hash_func ◌==◌ 105 9 table).1
    × Holds hash_func ◌==◌ table (fthash_remove3 hash_func ◌==◌ Ftremf.move 9 table).1
    × Holds hash_func ◌==◌ table (fthash_bury 105 table)
    × InsertHolds hash_func ◌==◌ table (fthash_insert hash_func ◌==◌ true 105 9 (some 90) table)
locked-Holds_example = locked-Holds hash_func ◌==◌ 105 9 true (some 90) table (omega arith)

new_table : fthash_new true true 3 4 8 30 ≡ some fresh
unfolding fthash_new
new_table = refl

abbrev inserted_one : FtHashTable ℕ ℕ
inserted_one = record fresh { tht_entries = [] ∷ (entry 1 10 ∷ []) ∷ [] ∷ []; tht_num_entries = 1 }

insert_one : fthash_insert hash_func ◌==◌ true 100 1 (some 10) fresh ≡ some inserted_one
unfolding fthash_insert get_free_ent fthash_hash
insert_one = refl

inserted_one-Reachable : Reachable hash_func ◌==◌ inserted_one
inserted_one-Reachable =
    Reachable.after (Reachable.new true true 3 4 8 30 new_table)
      (Step.insert true 100 1 (some 10) insert_one)

Reachable-IsCounted_example : IsCounted inserted_one
Reachable-IsCounted_example = Reachable-IsCounted hash_func ◌==◌ inserted_one inserted_one-Reachable
