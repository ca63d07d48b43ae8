-- ===== src/Directory/Laws.antt =====
-- A delete takes the name out of the directory in the cache.
use anfs.Base.{
  ℕ, Bytes, ◌≡◌, refl, sym, ap, ◌∙◌, inl, inr, Bool, true, false, ◌&&◌, ◌||◌, Option, none, some,
  List, [], ◌∷◌, ◌==◌, if◌then◌else◌, arith, Bool-cases,
}
use mathlib.Core.Path.{subst}
use anfs.Nfssupp.{IoErr}
use anfs.Dcache.{NEntry, ne_find, ne_str2hash, same_string, without_entry, ne_remove}
use anfs.Dcache.Names.{same_string→≡, ==-refl}
use anfs.Locks.{lock_lookup_from_key}
use anfs.Lock.{Found, entry, Located, at_dir}
use anfs.Lock.Entries.{Calls, Globals}
use anfs.Lock.Entries.Names.{Named, get_name_entry}
use anfs.Lock.Objects.{Names, Locking, l_root_locate_dir}
use anfs.Directory.{
  Changes, Done, of_error, forget_name, forget_dir, remove_entry, delete_named, delete_in,
  act_delete_object,
}

abbrev has_address : (address : ℕ) → List NEntry → Bool
has_address address [] = false
has_address address (ent ∷ rest) = ent.address == address || has_address address rest

-- No two entries have one address, and none hides another behind it.
abbrev pub AreApart : List NEntry → Type 0
AreApart [] = Unit {0}
AreApart (ent ∷ rest) =
    (has_address ent.address rest ≡ false)
    × (ne_find ent.ne_hash ent.ne_name rest ≡ none)
    × AreApart rest

find-has_address :
    (hash : ℕ) (name : List ℕ) (l : List NEntry) (n : NEntry)
    → ne_find hash name l ≡ some n
    → has_address n.address l ≡ true
unfolding ne_find
find-has_address hash name [] n e = absurd (cc)
find-has_address hash name (ent ∷ rest) n e =
    elim (Bool-cases ((hash == ent.ne_hash) && same_string name ent.ne_name)) [
      | inl here ↦ ground (arith, e, here, ==-refl ent.address)
      | inr there ↦ ground (arith, e, there, find-has_address hash name rest n)
    ]

-- The name that is found is gone without its entry.
find-without_self :
    (hash : ℕ) (name : List ℕ) (l : List NEntry) (n : NEntry)
    → AreApart l
    → ne_find hash name l ≡ some n
    → ne_find hash name (without_entry n.address l) ≡ none
unfolding ne_find without_entry
find-without_self hash name [] n a e = absurd (cc)
find-without_self hash name (ent ∷ rest) n (fresh, hides, a) e =
    elim (Bool-cases ((hash == ent.ne_hash) && same_string name ent.ne_name)) [
      | inl here ↦
          let same_name = same_string→≡ name ent.ne_name (ground (arith, here)) in
          let same_hash : hash ≡ ent.ne_hash = ground (arith, here) in
          ground (arith, e, here, hides, same_name, same_hash, ==-refl ent.address)
      | inr there ↦
          ground (
            arith,
            e,
            there,
            find-without_self hash name rest n a,
            find-has_address hash name rest n,
          )
    ]

-- Another name is found as before.
find-without_other :
    (hash : ℕ) (name : List ℕ) (hash' : ℕ) (other : List ℕ) (l : List NEntry) (n : NEntry)
    → ne_find hash name l ≡ some n
    → same_string other n.ne_name ≡ false
    → AreApart l
    → ne_find hash' other (without_entry n.address l) ≡ ne_find hash' other l
unfolding ne_find without_entry
find-without_other hash name hash' other [] n e m a = refl
find-without_other hash name hash' other (ent ∷ rest) n e m (fresh, hides, a) =
    elim (Bool-cases ((hash == ent.ne_hash) && same_string name ent.ne_name)) [
      | inl here ↦ ground (arith, e, here, m, ==-refl ent.address)
      | inr there ↦ ground (
        arith,
        e,
        there,
        find-without_other hash name hash' other rest n,
        find-has_address hash name rest n,
      )
    ]

-- The entries of a directory in the cache
abbrev pub entries : {W : Type 0} → (dir : ℕ) → Globals W → List NEntry
entries dir g = (g.dirs.dces dir).dce_entries

module _ {W : Type 0} (calls : Calls W) (names : Names W) (changes : Changes W) where
  -- What the server says of the removal
  abbrev pub removal : (dir : ℕ) (name : List ℕ) → NEntry → Globals W → Option IoErr
  removal dir name n g =
      if n.ne_ftype == 2
      then (changes.nfs_rm_dir g.world (g.dirs.dces dir).dce_nfs_fh name).1
      else (changes.nfs_remove g.world (g.dirs.dces dir).dce_nfs_fh name).1

  -- The reply is what the server says of the removal of the entry from the directory, the locks are the
  -- same, and the cache finds the name no more, and another one as before.
  abbrev pub Forgets :
      (dir : ℕ) (name other : List ℕ) → Globals W → NEntry → Locking W → Done × Locking W → Type 0
  Forgets dir name other g n s p =
      (p.0 ≡ of_error (removal dir name n g))
      × (p.1.locks ≡ s.locks)
      × (ne_find (ne_str2hash name) name (entries dir p.1.globals) ≡ none)
      × (ne_find (ne_str2hash other) other (entries dir p.1.globals)
          ≡ ne_find (ne_str2hash other) other (entries dir g))

  remove_entry-lists :
      (dir : ℕ) (name : List ℕ) (n : NEntry) (g : Globals W)
      → (entries dir (remove_entry calls names changes dir name n g).1
          ≡ without_entry n.address (entries dir g))
        × ((remove_entry calls names changes dir name n g).0 ≡ of_error (removal dir name n g))
  unfolding remove_entry forget_name forget_dir ne_remove
  remove_entry-lists dir name n g = elim (Bool-cases (n.ne_ftype == 2)) [
    | inl is_dir ↦ ground (arith, ==-refl dir)
    | inr is_file ↦ ground (arith, ==-refl dir)
  ]

  delete_named-Forgets :
      (dir : ℕ) (name other : List ℕ) (g : Globals W) (n : NEntry) (ace : ℕ) (s : Locking W)
      → lock_lookup_from_key s.locks n.ne_file_id ≡ none
      → AreApart (entries dir g)
      → ne_find (ne_str2hash name) name (entries dir g) ≡ some n
      → same_string other n.ne_name ≡ false
      → Forgets dir name other g n s
          (delete_named calls names changes dir name (g, entry (n, ace)) s)
  unfolding delete_named
  delete_named-Forgets dir name other g n ace s unlocked apart found differs =
      let (lists, result) = remove_entry-lists dir name n g in
      rw (unlocked, delete_named)
        (
          result,
          refl,
          ap (ne_find (ne_str2hash name) name) lists
              ∙ find-without_self (ne_str2hash name) name (entries dir g) n apart found,
          ap (ne_find (ne_str2hash other) other) lists
              ∙ find-without_other (ne_str2hash name) name (ne_str2hash other) other (entries dir g)
                  n found differs apart,
        )

  delete_in-named :
      (g1 g2 : Globals W) (dir : ℕ) (full_name name : List ℕ) (r : Found Named)
      (l : Located (Globals W) (ℕ × List ℕ × List ℕ)) (s : Locking W)
      → l ≡ at_dir g1 (dir, full_name, name)
      → get_name_entry calls g1 dir name ≡ (g2, r)
      → delete_in calls names changes l s ≡ delete_named calls names changes dir name (g2, r) s
  unfolding delete_in
  delete_in-named g1 g2 dir full_name name r l s located got = rw (located, got, delete_in) refl

  -- `act_DELETE_OBJECT` of a path for which `LRootLocateDir` finds a directory and `GetNameEntry` the
  -- entry of the last name, that of a file without a lock; the entries of the directory in the cache
  -- are apart then, and the name leads to this entry. The result is what the server says of the
  -- removal of the name from the directory. Whatever that is, the locks stay as they were, and the
  -- cache does not find the name in the directory any more, and finds every other name as it did after
  -- `GetNameEntry`.
  pub act_delete_object-Forgets :
      (fl : ℕ) (bstr : Bytes) (s : Locking W) (g1 g2 : Globals W) (dir : ℕ)
      (full_name name other : List ℕ) (n : NEntry) (ace : ℕ)
      → l_root_locate_dir calls names fl bstr s ≡ at_dir g1 (dir, full_name, name)
      → get_name_entry calls g1 dir name ≡ (g2, entry (n, ace))
      → lock_lookup_from_key s.locks n.ne_file_id ≡ none
      → AreApart (entries dir g2)
      → ne_find (ne_str2hash name) name (entries dir g2) ≡ some n
      → same_string other n.ne_name ≡ false
      → Forgets dir name other g2 n s (act_delete_object calls names changes fl bstr s)
  unfolding act_delete_object
  act_delete_object-Forgets fl bstr s g1 g2 dir full_name name other n ace located got unlocked
        apart found differs =
      subst (Forgets dir name other g2 n s)
        (sym (delete_in-named g1 g2 dir full_name name (entry (n, ace)) _ s located got))
        (delete_named-Forgets dir name other g2 n ace s unlocked apart found differs)
