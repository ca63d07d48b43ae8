-- ===== src/Attrs/Tests.antt =====
-- A small cache of attributes, and the theorem at it.
use anfs.Base.{ℕ, ◌≡◌, refl, none, some, [], ◌∷◌, true, arith, Option}
use anfs.Fthash.{get_free_ent, dead_at}
use anfs.Fthash.Keys.{fthash_hash}
use anfs.Fthash.Count.{IsCounted}
use anfs.Attrs.{Fattr, AcEntry, Cache, attrs_update, attrs_lookup_from_file_id, attrs_delete}
use anfs.Attrs.Laws.{Updates, attrs_update-Updates}

abbrev file : Fattr
file = record {
  ftype = 1;
  mode = 420;
  nlink = 1;
  uid = 0;
  gid = 0;
  size = 77;
  blocksize = 512;
  rdev = 0;
  blocks = 1;
  fsid = 3;
  fileid = 259;
  atime = 5;
  mtime = 5;
  ctime = 5;
}

abbrev no_ace : ℕ → AcEntry
no_ace k = record { ace_file_id = 0; ace_nfs_fh = []; ace_fattr = record file { fileid = 0 } }

-- Two lists in place of 256
abbrev small : Cache
small = record {
  attr_cache = record {
    tht_entries = [] ∷ [] ∷ [];
    tht_free_entries = [];
    tht_locked_entries = [];
    tht_num_entries = 0;
    tht_max_entries = 4;
    tht_lock_cnt = 0;
    tht_ttl = 60;
    freed = [];
  };
  aces = no_ace;
}

abbrev found_address : Option ℕ × Cache → Option ℕ
found_address r = r.0

finds_update :
    found_address (
      attrs_lookup_from_file_id 110 259 (attrs_update (some 40) true 100 (1 ∷ 2 ∷ []) file small).1)
    ≡ some 40
unfolding attrs_update attrs_lookup_from_file_id fthash_hash get_free_ent dead_at
finds_update = refl

finds_no_deleted :
    found_address (
      attrs_lookup_from_file_id 110 259
        (attrs_delete 259 (attrs_update (some 40) true 100 (1 ∷ 2 ∷ []) file small).1))
    ≡ none
unfolding attrs_update attrs_lookup_from_file_id attrs_delete fthash_hash get_free_ent
finds_no_deleted = refl

small-IsCounted : IsCounted small.attr_cache
small-IsCounted = record { counted = refl; bounded = omega arith; has_lists = omega arith }

attrs_update-Updates_example :
    Updates
      (some 40)
      true
      100
      (1 ∷ 2 ∷ [])
      file
      (attrs_update (some 40) true 100 (1 ∷ 2 ∷ []) file small)
attrs_update-Updates_example =
    attrs_update-Updates (some 40) true 100 (1 ∷ 2 ∷ []) file small small-IsCounted (omega arith)
      (omega arith) (omega arith)
