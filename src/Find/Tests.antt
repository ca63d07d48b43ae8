-- ===== src/Find/Tests.antt =====
-- Runs of the actions that open a file, on a server where every name leads to file 4.
use anfs.Base.{ℕ, ◌+◌, ◌≡◌, refl, none, some, [], ◌∷◌}
use anfs.Nfssupp.{error_object_in_use}
use anfs.Attrs.{Fattr}
use anfs.Fn.{scan_path}
use anfs.Fn.Split.{no_nul}
use anfs.Fthash.{get_free_ent, dead_at}
use anfs.Fthash.Keys.{fthash_hash}
use anfs.Lock.{entry}
use anfs.Lock.Entries.{Calls, get_dir_entry, c_get_attr}
use anfs.Lock.Entries.Names.{get_name_entry}
use anfs.Lock.Entries.Tests.{calls, started, directory}
use anfs.Lock.Objects.Tests.{names, named_a}
use anfs.Find.{Files, Opening, opened, refused, act_findoutput, act_findinput, act_findupdate}

abbrev regular : Fattr
regular = record (directory 4) { ftype = 1 }

abbrev regular_calls : Calls ℕ
regular_calls = record calls {
  nfs_lookup = λ w fh name. (w + 1, entry (record { file = 4 ∷ []; attributes = regular }));
}

abbrev pub files : Files ℕ
files = record {
  nfs_create = λ w fh name size. (w + 1, entry (record { file = 4 ∷ []; attributes = regular }));
  nfs_remove = λ w fh name. (w + 1, none);
  fh_memory = λ w. some (w + 900);
}

abbrev pub opening : Opening ℕ
opening = record { locking = record { globals = started; locks = [] }; fhs = []; last_id = 6 }

-- A file that is open for output can be opened for input, but not one that is open for update.
output_then_input :
    (act_findinput regular_calls names files 0 named_a
      (act_findoutput regular_calls names files 0 named_a opening).1).0
    ≡ opened 8
unfolding act_findinput act_findoutput get_dir_entry c_get_attr get_name_entry fthash_hash
    get_free_ent dead_at scan_path no_nul
output_then_input = refl

update_then_input :
    (act_findinput regular_calls names files 0 named_a
      (act_findupdate regular_calls names files 0 named_a opening).1).0
    ≡ refused error_object_in_use
unfolding act_findinput act_findupdate get_dir_entry c_get_attr get_name_entry fthash_hash
    get_free_ent dead_at scan_path no_nul
update_then_input = refl
