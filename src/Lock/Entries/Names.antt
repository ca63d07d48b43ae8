-- ===== src/Lock/Entries/Names.antt =====
-- `GetNameEntry` of src/lock.c, and the caches as the interface of the walk.
use anfs.Base.{ℕ, Option, none, some, List, [], ◌∷◌, ◌==◌, if◌then◌else◌}
use anfs.Nfssupp.{error_no_free_store}
use anfs.Attrs.{Fattr}
use anfs.Dcache.{NEntry, DcEntry, ne_lookup, ne_create_and_insert, set_dce}
use anfs.Lock.{Ftype, nfdir, nflnk, other_ftype, Found, entry, missing, Directories}
use anfs.Lock.Entries.{Calls, Globals, lookup_attr, insert_attr, get_dir_entry}

-- A change of a name entry in place, by its address
unfoldable pub set_n_ent : NEntry → List NEntry → List NEntry
set_n_ent n_ent [] = []
set_n_ent n_ent (ent ∷ rest) =
    let further = set_n_ent n_ent rest in
    if ent.address == n_ent.address then n_ent ∷ rest else ent ∷ further

-- The name entry and the address of the attributes
abbrev pub Named : Type 0
Named = NEntry × ℕ

module _ {W : Type 0} (calls : Calls W) where
  -- The name entry in the directory, new or changed in place
  unfoldable pub put_name :
      (act_dir : ℕ) (name : List ℕ)
      → Option NEntry
      → Fattr
      → (ace : ℕ) → Globals W
      → Globals W × Found Named
  unfolding set_n_ent ne_create_and_insert
  put_name act_dir name none fattr ace g =
      let w = g.world in
      let (n_ent, cache) =
        ne_create_and_insert (calls.alloc_vec w) (calls.name_memory w) act_dir name fattr.ftype
          (g.attrs.aces ace).ace_file_id g.dirs in
      elim n_ent [
        | none ↦ (record g { dirs = cache }, missing error_no_free_store)
        | some n ↦ (record g { dirs = cache }, entry (n, ace))
      ]
  put_name act_dir name (some n) fattr ace g =
      let n' : NEntry = record n {
        ne_ftype = fattr.ftype;
        ne_file_id = (g.attrs.aces ace).ace_file_id;
      } in
      let dce : DcEntry = g.dirs.dces act_dir in
      let dce' : DcEntry = record dce { dce_entries = set_n_ent n' dce.dce_entries } in
      (
        record g { dirs = record (g.dirs) { dces = set_dce act_dir dce' g.dirs.dces } },
        entry (n', ace),
      )

  -- What follows the insertion of the attributes
  unfoldable pub named :
      (act_dir : ℕ) (name : List ℕ)
      → Option NEntry
      → Fattr
      → Found ℕ × Globals W
      → Globals W × Found Named
  unfolding put_name
  named act_dir name old fattr (missing e, g) = (g, missing error_no_free_store)
  named act_dir name old fattr (entry ace, g) = put_name act_dir name old fattr ace g

  -- `GetNameEntry` from the call of the server on
  unfoldable pub name_from_server :
      (act_dir : ℕ) (name : List ℕ) → Option NEntry → Globals W → Globals W × Found Named
  unfolding named insert_attr
  name_from_server act_dir name old g =
      let (w, dirent) = calls.nfs_lookup g.world (g.dirs.dces act_dir).dce_nfs_fh name in
      let g1 = record g { world = w } in
      elim dirent [
        | missing e ↦ (g1, missing e)
        | entry d ↦ named act_dir name old d.attributes (insert_attr calls d.file d.attributes g1)
      ]

  -- `GetNameEntry` of a name that the cache has
  unfoldable pub cached_name :
      (act_dir : ℕ) (name : List ℕ) → NEntry → Globals W → Globals W × Found Named
  unfolding lookup_attr name_from_server
  cached_name act_dir name n g =
      let (ace, g1) = lookup_attr calls n.ne_file_id g in
      elim ace [ some a ↦ (g1, entry (n, a)) | none ↦ name_from_server act_dir name (some n) g1 ]

  -- `GetNameEntry` with the attributes wanted
  unfoldable pub get_name_entry :
      Globals W → (act_dir : ℕ) (name : List ℕ) → Globals W × Found Named
  unfolding ne_lookup cached_name name_from_server
  get_name_entry g act_dir name =
      let (n_ent, cache) = ne_lookup act_dir name g.dirs in
      let g1 = record g { dirs = cache } in
      elim n_ent [
        | some n ↦ cached_name act_dir name n g1
        | none ↦ name_from_server act_dir name none g1
      ]

  -- `ne_FType` as the walk tests it: NFDIR is 2 and NFLNK is 5.
  abbrev pub ftype_of : Named → Ftype
  ftype_of (n, ace) =
      if n.ne_ftype == 2 then nfdir else (if n.ne_ftype == 5 then nflnk else other_ftype)

  -- The walk on the caches: the calls of `RootLocateDir`
  abbrev pub directories : Directories (Globals W) ℕ Named
  directories = record {
    get_root_entry = λ g. get_dir_entry calls g.mnt_file_id g.mnt_fh g;
    get_name_entry = get_name_entry;
    ne_ftype = ftype_of;
    get_dir_entry = λ g n name. get_dir_entry calls n.0.ne_file_id (g.attrs.aces n.1).ace_nfs_fh g;
  }
