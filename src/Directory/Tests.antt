-- ===== src/Directory/Tests.antt =====
-- Runs of the actions on a directory, and the theorems at concrete states.
use anfs.Base.{ℕ, ◌+◌, ◌≡◌, refl, none, List, [], ◌∷◌}
use anfs.Dcache.{NEntry, ne_find, ne_str2hash, same_string}
use anfs.File.{FileMode}
use anfs.Locks.{shared_lock, Elock, lock_lookup_from_key, lock_num_locks_from_key}
use anfs.Locks.Exclusive.{AreExclusive}
use anfs.Lock.{Found, entry, Located, at_dir, failed, stuck}
use anfs.Fn.{scan_path}
use anfs.Fthash.{get_free_ent, dead_at}
use anfs.Fthash.Keys.{fthash_hash}
use anfs.Lock.Entries.Names.{Named, get_name_entry}
use anfs.Lock.Entries.{Globals, get_dir_entry, c_get_attr}
use anfs.Lock.Entries.Tests.{calls, started, directory}
use anfs.Lock.Objects.{Locking, l_root_locate_dir}
use anfs.Lock.Objects.Tests.{names, named_a}
use anfs.Find.{Opening, act_findreadwrite}
use anfs.Find.Tests.{files, opening}
use anfs.Directory.{Changes, act_delete_object, act_create_dir}
use anfs.Directory.Laws.{Forgets, act_delete_object-Forgets}
use anfs.Directory.Steps.{Action, Reachable, Reachable-AreExclusive}

abbrev changes : Changes ℕ
changes = record {
  nfs_rm_dir = λ w fh name. (w + 1, none);
  nfs_remove = λ w fh name. (w + 1, none);
  nfs_mk_dir =
      λ w fh name. (w + 1, entry (record { file = 9 ∷ []; attributes = directory (w + 100) }));
  nfs_rename = λ w fh1 name1 fh2 name2. (w + 1, none);
  nfs_create =
      λ w fh name size. (w + 1, entry (record { file = 9 ∷ []; attributes = directory 9 }));
}

abbrev keys : List Elock → List ℕ
keys [] = []
keys (l ∷ locks) = l.fl_key ∷ keys locks

abbrev globals_at : Located (Globals ℕ) (ℕ × List ℕ × List ℕ) → Globals ℕ
globals_at (at_dir g d) = g
globals_at (failed g e) = g
globals_at stuck = started

-- The state after `LRootLocateDir` of the name `a`, which leads to the root
abbrev walked : Locking ℕ → Globals ℕ
walked s = globals_at (l_root_locate_dir calls names 0 named_a s)

-- The name `bb` was looked up before, and so the cache has it in the root.
abbrev knows_bb : Locking ℕ
knows_bb = record {
  globals =
      (get_name_entry calls (walked (record { globals = started; locks = [] })) 1001
        (98 ∷ 98 ∷ [])).0;
  locks = [];
}

abbrev named_in_root : Globals ℕ × Found Named
named_in_root = get_name_entry calls (walked knows_bb) 1001 (97 ∷ [])

abbrev entry_a : NEntry
entry_a = record { address = 1003; ne_name = 97 ∷ []; ne_hash = 95; ne_ftype = 2; ne_file_id = 3 }

root_located :
    l_root_locate_dir calls names 0 named_a knows_bb
    ≡ at_dir (walked knows_bb) (1001, 97 ∷ [], 97 ∷ [])
unfolding get_dir_entry c_get_attr get_name_entry fthash_hash get_free_ent dead_at scan_path
    l_root_locate_dir
root_located = refl

a_got :
    get_name_entry calls (walked knows_bb) 1001 (97 ∷ []) ≡ (named_in_root.0, entry (entry_a, 1003))
unfolding get_dir_entry c_get_attr get_name_entry fthash_hash get_free_ent dead_at scan_path
    l_root_locate_dir
a_got = refl

act_delete_object-Forgets_example :
    Forgets calls names changes 1001
      (97 ∷ [])
      (98 ∷ 98 ∷ [])
      (named_in_root.0)
      entry_a
      knows_bb
      (act_delete_object calls names changes 0 named_a knows_bb)
unfolding get_dir_entry c_get_attr get_name_entry fthash_hash get_free_ent dead_at scan_path
    l_root_locate_dir ne_find ne_str2hash same_string lock_lookup_from_key
act_delete_object-Forgets_example =
    act_delete_object-Forgets calls names changes 0 named_a knows_bb (walked knows_bb)
      (named_in_root.0) 1001 (97 ∷ []) (97 ∷ []) (98 ∷ 98 ∷ []) entry_a 1003 root_located a_got refl
      (refl, refl, (refl, refl, tt)) refl refl

-- Two directories are made, one after the other, each with an exclusive lock that is held, and a file is
-- opened.
abbrev made_one : Opening ℕ
made_one = record opening {
  locking = (act_create_dir calls names changes 0 named_a opening.locking).1;
}

abbrev made_two : Opening ℕ
made_two = record made_one {
  locking = (act_create_dir calls names changes 0 named_a made_one.locking).1;
}

keys_made : keys made_two.locking.locks ≡ 102 ∷ 101 ∷ []
unfolding get_dir_entry c_get_attr get_name_entry fthash_hash get_free_ent dead_at scan_path
    l_root_locate_dir act_create_dir
keys_made = refl

Reachable-AreExclusive_example :
    AreExclusive
      (act_findreadwrite calls names files FileMode.mode_oldfile shared_lock 0 named_a
        made_two).1.locking.locks
unfolding get_dir_entry c_get_attr get_name_entry fthash_hash get_free_ent dead_at scan_path
    l_root_locate_dir act_create_dir lock_num_locks_from_key
Reachable-AreExclusive_example = Reachable-AreExclusive calls names files changes (
    Reachable.next made_two
      (Reachable.next made_one (Reachable.next opening Reachable.start (Action.make 0 named_a refl))
        (Action.make 0 named_a refl))
      (Action.find FileMode.mode_oldfile shared_lock 0 named_a))
