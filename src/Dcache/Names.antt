-- ===== src/Dcache/Names.antt =====
-- The names that a directory of the cache knows: the hash only makes the search faster.
use anfs.Base.{
  ℕ, ◌≡◌, refl, ap, ◌∙◌, sym, inl, inr, Bool, true, false, Option, none, some, List, [], ◌∷◌, ◌==◌,
  if◌then◌else◌, arith, Bool-cases, Option-cases,
}
use mathlib.Core.Path.{subst, ap₂}
use anfs.Attrs.{NfsFh, same_id, attrs_hash_func}
use anfs.Fthash.Keys.{fthash_insert}
use anfs.Dcache.{
  NEntry, DcEntry, DirCache, ne_str2hash, same_string, set_dce, dce_create_and_insert, ne_find,
  ne_lookup, ne_create_and_insert, without_entry, ne_remove,
}

pub same_string_refl : (s : List ℕ) → same_string s s ≡ true
unfolding same_string
same_string_refl [] = refl
same_string_refl (c ∷ s) = ground (arith, same_string_refl s)

pub same_string→≡ : (s t : List ℕ) → same_string s t ≡ true → s ≡ t
unfolding same_string
same_string→≡ [] [] h = refl
same_string→≡ [] (d ∷ t) h = absurd (ground arith)
same_string→≡ (c ∷ s) [] h = absurd (ground arith)
same_string→≡ (c ∷ s) (d ∷ t) h = ap₂ ◌∷◌ (ground arith) (same_string→≡ s t (ground arith))

-- The search by the name alone
unfoldable pub by_name : (name : List ℕ) → List NEntry → Option NEntry
unfolding same_string
by_name name [] = none
by_name name (ent ∷ rest) =
    let further = by_name name rest in if same_string name ent.ne_name then some ent else further

-- Every entry has the hash of its name.
abbrev pub AllHashed : List NEntry → Type 0
AllHashed [] = Unit
AllHashed (ent ∷ rest) = (ent.ne_hash ≡ ne_str2hash ent.ne_name) × AllHashed rest

abbrev pub IsHashed : DirCache → Type 0
IsHashed g = (dc_ent : ℕ) → AllHashed (g.dces dc_ent).dce_entries

pub ==-refl : (k : ℕ) → (k == k) ≡ true
==-refl k = ground arith

same_hash :
    (name : List ℕ) (ent : NEntry)
    → ent.ne_hash ≡ ne_str2hash ent.ne_name
    → same_string name ent.ne_name ≡ true
    → (ne_str2hash name == ent.ne_hash) ≡ true
same_hash name ent e same =
    let hashes = ap ne_str2hash (same_string→≡ name ent.ne_name same) in
    rw (e, hashes) (==-refl (ne_str2hash ent.ne_name))

ne_find-by_name :
    (name : List ℕ) (l : List NEntry)
    → AllHashed l
    → ne_find (ne_str2hash name) name l ≡ by_name name l
unfolding ne_find by_name
ne_find-by_name name [] h = refl
ne_find-by_name name (ent ∷ rest) (e, h) = elim (Bool-cases (same_string name ent.ne_name)) [
  | inr other ↦ elim (Bool-cases (ne_str2hash name == ent.ne_hash)) [
    | inl k ↦ rw (other, k) (ne_find-by_name name rest h)
    | inr k ↦ rw (other, k) (ne_find-by_name name rest h)
  ]
  | inl same ↦ rw (same, same_hash name ent e same) refl
]

-- The changes of the cache, and a cache without names
pub data Step : DirCache → DirCache → Type 0 where
  dir_created :
      {g : DirCache} (alloc : Option ℕ) (memory : Bool) (now fileid : ℕ) (fh : NfsFh)
      → Step g (dce_create_and_insert alloc memory now fileid fh g).1
  name_created :
      {g : DirCache} (alloc : Option ℕ) (name_memory : Bool) (dc_ent : ℕ) (name : List ℕ)
      (ftype file_id : ℕ)
      → Step g (ne_create_and_insert alloc name_memory dc_ent name ftype file_id g).1
  name_looked_up : {g : DirCache} (dc_ent : ℕ) (name : List ℕ) → Step g (ne_lookup dc_ent name g).1
  name_removed : {g : DirCache} (dc_ent par_n_ent : ℕ) → Step g (ne_remove dc_ent par_n_ent g)

pub data Reachable : DirCache → Type 0 where
  empty : {g : DirCache} → ((dc_ent : ℕ) → (g.dces dc_ent).dce_entries ≡ []) → Reachable g
  after : {g g' : DirCache} → Reachable g → Step g g' → Reachable g'

set_dce-IsHashed :
    (dces : ℕ → DcEntry) (address : ℕ) (dce : DcEntry)
    → ((d : ℕ) → AllHashed (dces d).dce_entries)
    → AllHashed dce.dce_entries
    → (d : ℕ) → AllHashed (set_dce address dce dces d).dce_entries
set_dce-IsHashed dces address dce h k d = elim (Bool-cases (d == address)) [
  | inl here ↦ rw here k
  | inr there ↦ rw there (h d)
]

without_entry-AllHashed :
    (address : ℕ) (l : List NEntry) → AllHashed l → AllHashed (without_entry address l)
unfolding without_entry
without_entry-AllHashed address [] h = tt
without_entry-AllHashed address (ent ∷ rest) (e, h) = elim (Bool-cases (ent.address == address)) [
  | inl here ↦ rw here h
  | inr there ↦ rw there (e, without_entry-AllHashed address rest h)
]

dir_created-IsHashed :
    (alloc : Option ℕ) (memory : Bool) (now fileid : ℕ) (fh : NfsFh) (g : DirCache)
    → IsHashed g
    → IsHashed (dce_create_and_insert alloc memory now fileid fh g).1
unfolding dce_create_and_insert
dir_created-IsHashed none memory now fileid fh g h = h
dir_created-IsHashed (some ent) memory now fileid fh g h =
    elim (Option-cases
      (fthash_insert attrs_hash_func same_id memory now fileid (some ent) g.dir_cache)) [
        | inl full ↦ rw (full, dce_create_and_insert) (set_dce-IsHashed g.dces ent _ h tt)
        | inr (tb, e) ↦ rw (e, dce_create_and_insert) (set_dce-IsHashed g.dces ent _ h tt)
      ]

looked_up-IsHashed :
    (dc_ent : ℕ) (name : List ℕ) (g : DirCache) → IsHashed g → IsHashed (ne_lookup dc_ent name g).1
unfolding ne_lookup
looked_up-IsHashed dc_ent name g h =
    elim (Option-cases (ne_find (ne_str2hash name) name (g.dces dc_ent).dce_entries)) [
      | inl missing ↦ rw (missing, ne_lookup) h
      | inr (ent, found) ↦ rw (found, ne_lookup) h
    ]

Step-IsHashed : (g g' : DirCache) → Step g g' → IsHashed g → IsHashed g'
unfolding ne_create_and_insert ne_remove
Step-IsHashed g _ (Step.dir_created alloc memory now fileid fh) h =
    dir_created-IsHashed alloc memory now fileid fh g h
Step-IsHashed g _ (Step.name_created none name_memory dc_ent name ftype file_id) h = h
Step-IsHashed g _ (Step.name_created (some a) false dc_ent name ftype file_id) h = h
Step-IsHashed g _ (Step.name_created (some a) true dc_ent name ftype file_id) h =
    set_dce-IsHashed g.dces dc_ent _ h (refl, h dc_ent)
Step-IsHashed g _ (Step.name_looked_up dc_ent name) h = looked_up-IsHashed dc_ent name g h
Step-IsHashed g _ (Step.name_removed dc_ent par_n_ent) h =
    set_dce-IsHashed g.dces dc_ent _ h (without_entry-AllHashed par_n_ent _ (h dc_ent))

Reachable-IsHashed : (g : DirCache) → Reachable g → IsHashed g
Reachable-IsHashed g (Reachable.empty e) = λ d. subst AllHashed (sym (e d)) tt
Reachable-IsHashed g (Reachable.after r step) = Step-IsHashed _ g step (Reachable-IsHashed _ r)

pub ne_lookup-found :
    (dc_ent : ℕ) (name : List ℕ) (g : DirCache)
    → (ne_lookup dc_ent name g).0 ≡ ne_find (ne_str2hash name) name (g.dces dc_ent).dce_entries
unfolding ne_lookup
ne_lookup-found dc_ent name g =
    elim (Option-cases (ne_find (ne_str2hash name) name (g.dces dc_ent).dce_entries)) [
      | inl missing ↦ rw (missing, ne_lookup) refl
      | inr (ent, found) ↦ rw (found, ne_lookup) refl
    ]

-- In every cache that comes about by creations of directories and by creations, lookups and removals
-- of names, from one that knows no names, `dc_NELookup` finds the first entry with the name: the
-- hash rules out none that has it.
pub Reachable-by_name :
    (dc_ent : ℕ) (name : List ℕ) (g : DirCache)
    → Reachable g
    → (ne_lookup dc_ent name g).0 ≡ by_name name (g.dces dc_ent).dce_entries
Reachable-by_name dc_ent name g r =
    ne_lookup-found dc_ent name g ∙ ne_find-by_name name _ (Reachable-IsHashed g r dc_ent)
