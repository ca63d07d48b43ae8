-- ===== src/Lock/Entries/Tests.antt =====
-- A server with files by number, and runs on empty caches.
use anfs.Base.{ℕ, ◌+◌, ◌^◌, ◌≡◌, ◌<◌, refl, ap, some, List, [], ◌∷◌, true, arith, length, ◌%◌}
use anfs.Fthash.{FtHashTable, get_free_ent, dead_at}
use anfs.Fthash.Keys.{fthash_hash}
use anfs.Fthash.Count.{IsCounted}
use anfs.Attrs.{NfsFh, Fattr}
use anfs.Dcache.{dce_id_unused}
use anfs.Lock.{Found, entry, missing, Located, at_dir, failed, root_locate_dir}
use anfs.Fn.{scan_path, c_str}
use anfs.Lock.Entries.{Dirop, Calls, Globals, c_get_attr, get_dir_entry}
use anfs.Lock.Entries.Laws.{GetsAttr, c_get_attr-GetsAttr}
use anfs.Lock.Entries.Names.{get_name_entry, directories}
use anfs.Lock.Entries.NameLaws.{GetsName, get_name_entry-GetsName}

-- The attributes of the directory with a number
abbrev pub directory : ℕ → Fattr
directory id = record {
  ftype = 2;
  mode = 493;
  nlink = 1;
  uid = 0;
  gid = 0;
  size = 512;
  blocksize = 512;
  rdev = 0;
  blocks = 1;
  fsid = 3;
  fileid = id;
  atime = 5;
  mtime = 5;
  ctime = 5;
}

-- The world counts the calls. The handle of a directory is its number; a name leads to the
-- number of its bytes and two.
abbrev pub calls : Calls ℕ
calls = record {
  nfs_get_attr = λ w fh. (w + 1, entry (directory 2));
  nfs_lookup = λ w fh name. (
    w + 1,
    entry (record {
      file = (length name + 2) % 2 ^ 32 ∷ [];
      attributes = directory ((length name + 2) % 2 ^ 32);
    }),
  );
  alloc_vec = λ w. some (w + 1000);
  table_memory = λ w. true;
  name_memory = λ w. true;
  fthash_now = λ w. 100;
}

abbrev empty_table : FtHashTable ℕ ℕ
empty_table = record {
  tht_entries = [] ∷ [] ∷ [];
  tht_free_entries = [];
  tht_locked_entries = [];
  tht_num_entries = 0;
  tht_max_entries = 4;
  tht_lock_cnt = 0;
  tht_ttl = 60;
  freed = [];
}

abbrev pub started : Globals ℕ
started = record {
  world = 0;
  attrs = record {
    attr_cache = empty_table;
    aces = λ k. record { ace_file_id = 0; ace_nfs_fh = []; ace_fattr = directory 0 };
  };
  dirs = record {
    dir_cache = empty_table;
    dces = λ k. record {
      dce_file_id = k;
      dce_parent_id = dce_id_unused;
      dce_nfs_fh = [];
      dce_entries = [];
    };
  };
  mnt_file_id = 2;
  mnt_fh = 2 ∷ [];
}

abbrev calls_made : Found ℕ × Globals ℕ → ℕ
calls_made r = r.1.world

-- The second time the cache has the attributes.
asks_once : calls_made (c_get_attr calls 2 (2 ∷ []) (c_get_attr calls 2 (2 ∷ []) started).1) ≡ 1
unfolding c_get_attr fthash_hash get_free_ent dead_at
asks_once = refl

empty_table-IsCounted : IsCounted empty_table
empty_table-IsCounted = record { counted = refl; bounded = omega arith; has_lists = omega arith }

abbrev pub number_of : Found Fattr → ℕ
number_of (missing e) = 0
number_of (entry fattr) = fattr.fileid

small_number : (fattr : Fattr) → entry (directory 2) ≡ entry fattr → fattr.fileid < 2 ^ 32
small_number fattr e = omega (arith, ap number_of e)

abbrev number_in : Found Dirop → ℕ
number_in (missing e) = 0
number_in (entry d) = d.attributes.fileid

small_numbers :
    (w : ℕ) (fh : NfsFh) (name : List ℕ) (d : Dirop)
    → (calls.nfs_lookup w fh name).1 ≡ entry d
    → d.attributes.fileid < 2 ^ 32
small_numbers w fh name d e = omega (arith, ap number_in e)

-- The walk to `a/bb/c` on the caches makes three calls: for the attributes of the root, and for two
-- names, with which the attributes come.
abbrev calls_in : Located (Globals ℕ) ℕ → ℕ
calls_in (at_dir g d) = g.world
calls_in (failed g e) = 0
calls_in Located.stuck = 0

walks_on_caches :
    calls_in (root_locate_dir (directories calls) true started (97 ∷ 47 ∷ 98 ∷ 98 ∷ 47 ∷ 99 ∷ []))
    ≡ 3
unfolding root_locate_dir scan_path c_str get_dir_entry c_get_attr get_name_entry fthash_hash
    get_free_ent dead_at
walks_on_caches = refl

c_get_attr-GetsAttr_example :
    GetsAttr calls 2 (2 ∷ []) started (c_get_attr calls 2 (2 ∷ []) started)
c_get_attr-GetsAttr_example =
    c_get_attr-GetsAttr calls 2 (2 ∷ []) started empty_table-IsCounted (λ w. omega arith)
      (λ w. omega arith) (λ w fattr e. small_number fattr e)

get_name_entry-GetsName_example :
    GetsName calls 7 (97 ∷ []) started (get_name_entry calls started 7 (97 ∷ []))
get_name_entry-GetsName_example =
    get_name_entry-GetsName calls 7 (97 ∷ []) started empty_table-IsCounted
      (λ w. (omega arith, omega arith)) small_numbers
