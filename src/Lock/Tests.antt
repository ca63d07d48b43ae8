-- ===== src/Lock/Tests.antt =====
-- A walk on a small tree, and the theorem at it.
use anfs.Base.{ℕ, suc, ◌≡◌, refl, List, [], ◌∷◌, true, length}
use anfs.Nfssupp.{IoErr}
use anfs.Fn.{slash, scan_path, c_str}
use anfs.Fn.Split.{split}
use anfs.Lock.{
  nfdir, nflnk, Found, entry, missing, Directories, at_dir, failed, entered, root_locate_dir,
}
use anfs.Lock.Walk.{walk, root_locate_dir-walk}

-- A directory is its depth; a name of two bytes is a link, and there is none of three.
abbrev type_of : List ℕ → Found (List ℕ)
type_of [] = missing IoErr.error_object_not_found
type_of (x ∷ y ∷ z ∷ name) = missing IoErr.error_object_not_found
type_of (x ∷ name) = entry (x ∷ name)

abbrev tree : Directories ℕ ℕ (List ℕ)
tree = record {
  get_root_entry = λ w. (suc w, entry 0);
  get_name_entry = λ w d name. (suc w, type_of name);
  ne_ftype = λ name. elim name [ x ∷ [] ↦ nfdir | _ ↦ nflnk ];
  get_dir_entry = λ w e name. (suc w, entry (length name));
}

-- `a/b/c` and `a/bb/c`
abbrev deep : List ℕ
deep = 97 ∷ slash ∷ 98 ∷ slash ∷ 99 ∷ []

walks : root_locate_dir tree true 0 deep ≡ at_dir 5 1
unfolding root_locate_dir scan_path c_str
walks = refl

stops_at_link :
    root_locate_dir tree true 0 (97 ∷ slash ∷ 98 ∷ 98 ∷ slash ∷ 99 ∷ [])
    ≡ failed 4 IoErr.error_is_soft_link
unfolding root_locate_dir scan_path c_str
stops_at_link = refl

root_locate_dir-walk_example :
    root_locate_dir tree true 0 deep
    ≡ entered tree (λ v d. walk tree v d (split deep).0 (split deep).1) (1, entry 0)
root_locate_dir-walk_example = root_locate_dir-walk tree 0 deep refl
