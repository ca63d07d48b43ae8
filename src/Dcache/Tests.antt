-- ===== src/Dcache/Tests.antt =====
-- Names in a small cache of directories, and the theorems at them.
use anfs.Base.{ℕ, ◌≡◌, ◌≢◌, refl, none, some, List, [], ◌∷◌, true, arith, Option}
use anfs.Dcache.{
  NEntry, DirCache, ne_lookup, ne_create_and_insert, ne_remove, ne_str2hash, dce_id_unused,
}
use anfs.Dcache.Names.{by_name, Reachable, Step, Reachable-by_name}
use anfs.Dcache.Laws.{ne_lookup-ne_create_and_insert}

abbrev no_names : DirCache
no_names = record {
  dir_cache = record {
    tht_entries = [] ∷ [] ∷ [];
    tht_free_entries = [];
    tht_locked_entries = [];
    tht_num_entries = 0;
    tht_max_entries = 4;
    tht_lock_cnt = 0;
    tht_ttl = 60;
    freed = [];
  };
  dces = λ k. record {
    dce_file_id = k;
    dce_parent_id = dce_id_unused;
    dce_nfs_fh = [];
    dce_entries = [];
  };
}

-- Two names with the same hash: `bb` and `ad`
abbrev bb : List ℕ
bb = 98 ∷ 98 ∷ []

abbrev ad : List ℕ
ad = 97 ∷ 100 ∷ []

same_hashes : ne_str2hash bb ≡ ne_str2hash ad
unfolding ne_str2hash
same_hashes = refl

abbrev one_name : DirCache
one_name = (ne_create_and_insert (some 40) true 7 bb 1 300 no_names).1

abbrev two_names : DirCache
two_names = (ne_create_and_insert (some 41) true 7 ad 2 301 one_name).1

abbrev file_id_of : Option NEntry → Option ℕ
file_id_of none = none
file_id_of (some ent) = some ent.ne_file_id

finds_bb : file_id_of (ne_lookup 7 bb two_names).0 ≡ some 300
unfolding ne_lookup ne_create_and_insert
finds_bb = refl

finds_no_removed : file_id_of (ne_lookup 7 bb (ne_remove 7 40 two_names)).0 ≡ none
unfolding ne_lookup ne_create_and_insert ne_remove
finds_no_removed = refl

two_names-Reachable : Reachable two_names
two_names-Reachable =
    Reachable.after
      (Reachable.after (Reachable.empty (λ d. refl)) (Step.name_created (some 40) true 7 bb 1 300))
      (Step.name_created (some 41) true 7 ad 2 301)

ad≢bb : ad ≢ bb
ad≢bb = λ e. ground arith

Reachable-by_name_example : (ne_lookup 7 bb two_names).0 ≡ by_name bb (two_names.dces 7).dce_entries
Reachable-by_name_example = Reachable-by_name 7 bb two_names two_names-Reachable

ne_lookup-ne_create_and_insert_example :
    ((ne_lookup 7 bb (ne_create_and_insert (some 40) true 7 bb 1 300 no_names).1).0
      ≡ (ne_create_and_insert (some 40) true 7 bb 1 300 no_names).0)
    × ((ne_lookup 7 ad (ne_create_and_insert (some 40) true 7 bb 1 300 no_names).1).0
        ≡ (ne_lookup 7 ad no_names).0)
ne_lookup-ne_create_and_insert_example =
    ne_lookup-ne_create_and_insert 40 7 bb 1 300 no_names ad ad≢bb
