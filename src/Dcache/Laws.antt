-- ===== src/Dcache/Laws.antt =====
-- A name that is created is found, and the others as before.
use anfs.Base.{
  ℕ, ◌≡◌, ◌≢◌, refl, ap, ◌∙◌, sym, inl, inr, true, false, some, List, ◌∷◌, ◌==◌, Bool-cases,
}
use anfs.Dcache.{
  NEntry, DirCache, ne_str2hash, same_string, ne_find, ne_lookup, ne_create_and_insert,
}
use anfs.Dcache.Names.{same_string_refl, same_string→≡, ==-refl, ne_lookup-found}

-- The entry that a creation makes
abbrev pub new_entry : (address : ℕ) (name : List ℕ) (ftype file_id : ℕ) → NEntry
new_entry address name ftype file_id = record {
  address = address;
  ne_name = name;
  ne_hash = ne_str2hash name;
  ne_ftype = ftype;
  ne_file_id = file_id;
}

find_new :
    (address : ℕ) (name : List ℕ) (ftype file_id : ℕ) (l : List NEntry)
    → ne_find (ne_str2hash name) name (new_entry address name ftype file_id ∷ l)
      ≡ some (new_entry address name ftype file_id)
unfolding ne_find
find_new address name ftype file_id l = rw (==-refl (ne_str2hash name), same_string_refl name) refl

find_other :
    (address : ℕ) (name other : List ℕ) (ftype file_id : ℕ) (l : List NEntry)
    → same_string other name ≡ false
    → ne_find (ne_str2hash other) other (new_entry address name ftype file_id ∷ l)
      ≡ ne_find (ne_str2hash other) other l
unfolding ne_find
find_other address name other ftype file_id l h =
    elim (Bool-cases (ne_str2hash other == ne_str2hash name)) [
      | inl k ↦ rw (k, h) refl
      | inr k ↦ rw k refl
    ]

created_entries :
    (address dc_ent : ℕ) (name : List ℕ) (ftype file_id : ℕ) (g : DirCache)
    → ((ne_create_and_insert (some address) true dc_ent name ftype file_id g).1.dces
        dc_ent).dce_entries
      ≡ new_entry address name ftype file_id ∷ (g.dces dc_ent).dce_entries
unfolding ne_create_and_insert
created_entries address dc_ent name ftype file_id g = rw (==-refl dc_ent) refl

created :
    (address dc_ent : ℕ) (name : List ℕ) (ftype file_id : ℕ) (g : DirCache)
    → some (new_entry address name ftype file_id)
      ≡ (ne_create_and_insert (some address) true dc_ent name ftype file_id g).0
unfolding ne_create_and_insert
created address dc_ent name ftype file_id g = refl

different : (s t : List ℕ) → s ≢ t → same_string s t ≡ false
different s t h = elim (Bool-cases (same_string s t)) [
  | inl same ↦ absurd (h (same_string→≡ s t same))
  | inr other ↦ other
]

-- After `dc_NECreateAndInsert`, with memory, of a name in a directory, `dc_NELookup` there finds the new
-- entry under the name, and every other name as before.
pub ne_lookup-ne_create_and_insert :
    (address dc_ent : ℕ) (name : List ℕ) (ftype file_id : ℕ) (g : DirCache) (other : List ℕ)
    → other ≢ name
    → ((ne_lookup dc_ent name
          (ne_create_and_insert (some address) true dc_ent name ftype file_id g).1).0
        ≡ (ne_create_and_insert (some address) true dc_ent name ftype file_id g).0)
      × ((ne_lookup dc_ent other
            (ne_create_and_insert (some address) true dc_ent name ftype file_id g).1).0
          ≡ (ne_lookup dc_ent other g).0)
ne_lookup-ne_create_and_insert address dc_ent name ftype file_id g other h = (
  ne_lookup-found dc_ent name _
      ∙ ap (ne_find (ne_str2hash name) name) (created_entries address dc_ent name ftype file_id g)
      ∙ find_new address name ftype file_id _
      ∙ created address dc_ent name ftype file_id g,
  ne_lookup-found dc_ent other _
      ∙ ap (ne_find (ne_str2hash other) other) (created_entries address dc_ent name ftype file_id g)
      ∙ find_other address name other ftype file_id _ (different other name h)
      ∙ sym (ne_lookup-found dc_ent other g),
)
