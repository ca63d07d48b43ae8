-- ===== src/Lock/Entries/NameLaws.antt =====
-- `GetNameEntry` gives an entry of the name, from the caches or from the server.
use anfs.Base.{
  ℕ, ◌^◌, ◌<◌, ◌≤◌, ◌≡◌, refl, ap, ◌∙◌, sym, inl, inr, ◌⊎◌, Bool, true, false, ◌&&◌, Option, none,
  some, List, [], ◌∷◌, ◌==◌, arith, Bool-cases, Option-cases,
}
use mathlib.Core.Path.{ap₂}
use anfs.Nfssupp.{error_no_free_store}
use anfs.Fthash.Count.{IsCounted}
use anfs.Attrs.{NfsFh}
use anfs.Attrs.Laws.{lookup-keeps}
use anfs.Dcache.{
  NEntry, DirCache, ne_lookup, ne_find, ne_str2hash, same_string, ne_create_and_insert,
}
use anfs.Dcache.Names.{same_string→≡, ne_lookup-found}
use anfs.Lock.{Found, entry, missing}
use anfs.Lock.Entries.{Dirop, Calls, Globals, lookup_attr}
use anfs.Lock.Entries.Laws.{HasAttr, Inserts}
use anfs.Lock.Entries.Laws.{insert_attr-Inserts}
use anfs.Lock.Entries.Names.{Named, put_name, named, name_from_server, cached_name, get_name_entry}

created_name :
    (alloc : Option ℕ) (name_memory : Bool) (dc_ent : ℕ) (name : List ℕ) (ftype file_id : ℕ)
    (g : DirCache) (n : NEntry)
    → (ne_create_and_insert alloc name_memory dc_ent name ftype file_id g).0 ≡ some n
    → n.ne_name ≡ name
unfolding ne_create_and_insert
created_name none name_memory dc_ent name ftype file_id g n e = absurd (cc)
created_name (some a) false dc_ent name ftype file_id g n e = absurd (cc)
created_name (some a) true dc_ent name ftype file_id g n e = ground (arith, e)

find_here :
    (hash : ℕ) (name : List ℕ) (ent : NEntry) (l : List NEntry)
    → ((hash == ent.ne_hash) && same_string name ent.ne_name) ≡ true
    → ne_find hash name (ent ∷ l) ≡ some ent
unfolding ne_find
find_here hash name ent l h = rw h refl

find_further :
    (hash : ℕ) (name : List ℕ) (ent : NEntry) (l : List NEntry)
    → ((hash == ent.ne_hash) && same_string name ent.ne_name) ≡ false
    → ne_find hash name (ent ∷ l) ≡ ne_find hash name l
unfolding ne_find
find_further hash name ent l h = rw h refl

some_injective : (a b : NEntry) → some a ≡ some b → a ≡ b
some_injective a b e = cc

and_right : (a b : Bool) → (a && b) ≡ true → b ≡ true
and_right true b h = h
and_right false b h = absurd (ground arith)

found_name :
    (hash : ℕ) (name : List ℕ) (l : List NEntry) (n : NEntry)
    → ne_find hash name l ≡ some n
    → n.ne_name ≡ name
unfolding ne_find
found_name hash name [] n e = absurd (cc)
found_name hash name (ent ∷ l) n e =
    elim (Bool-cases ((hash == ent.ne_hash) && same_string name ent.ne_name)) [
      | inl here ↦
          let found = some_injective ent n (sym (find_here hash name ent l here) ∙ e) in
          sym (ap (λ x. x.ne_name) found)
          ∙ sym (same_string→≡ name ent.ne_name (and_right (hash == ent.ne_hash) _ here))
      | inr there ↦ found_name hash name l n (sym (find_further hash name ent l there) ∙ e)
    ]

ne_lookup-dces :
    (dc_ent : ℕ) (name : List ℕ) (g : DirCache) → (ne_lookup dc_ent name g).1.dces ≡ g.dces
unfolding ne_lookup
ne_lookup-dces dc_ent name g =
    elim (Option-cases (ne_find (ne_str2hash name) name (g.dces dc_ent).dce_entries)) [
      | inl missing_name ↦ rw (missing_name, ne_lookup) refl
      | inr (ent, found) ↦ rw (found, ne_lookup) refl
    ]

module _ {W : Type 0} (calls : Calls W) where
  -- What `GetNameEntry` gives: an entry of the name with attributes. Either these are the entries that the
  -- lookups in the caches give, and the server was not called; or the attributes are those that the server gives and the
  -- cache finds them; or an error
  abbrev pub GetsName : (act_dir : ℕ) (name : List ℕ) → Globals W → Globals W × Found Named → Type 0
  GetsName act_dir name g (g', entry (n, ace)) =
      (n.ne_name ≡ name)
      × (((g'.world ≡ g.world)
            × ((ne_lookup act_dir name g.dirs).0 ≡ some n)
            × ((lookup_attr calls n.ne_file_id g).0 ≡ some ace))
          ⊎ ((d : Dirop) × ((calls.nfs_lookup g.world (g.dirs.dces act_dir).dce_nfs_fh name).1
                ≡ entry d)
              × HasAttr calls ace d.file d.attributes g'))
  GetsName act_dir name g (g', missing e) =
      ((calls.nfs_lookup g.world (g.dirs.dces act_dir).dce_nfs_fh name).1 ≡ missing e)
      ⊎ (e ≡ error_no_free_store)

  put_name-GetsName :
      (act_dir : ℕ) (name : List ℕ) (old : Option NEntry) (ace : ℕ) (g g0 : Globals W) (d : Dirop)
      → ((n : NEntry) → old ≡ some n → n.ne_name ≡ name)
      → (calls.nfs_lookup g0.world (g0.dirs.dces act_dir).dce_nfs_fh name).1 ≡ entry d
      → HasAttr calls ace d.file d.attributes g
      → GetsName act_dir name g0 (put_name calls act_dir name old d.attributes ace g)
  unfolding put_name lookup_attr
  put_name-GetsName act_dir name none ace g g0 d same e has =
      elim (Option-cases
        (ne_create_and_insert (calls.alloc_vec g.world) (calls.name_memory g.world) act_dir name
          d.attributes.ftype (g.attrs.aces ace).ace_file_id g.dirs).0) [
            | inl full ↦ rw (full, put_name) (inr refl)
            | inr (n, made) ↦
                rw (made, put_name)
                  (
                    created_name (calls.alloc_vec g.world) (calls.name_memory g.world) act_dir name
                        _ _ g.dirs n made,
                    inr (d, e, has),
                  )
          ]
  put_name-GetsName act_dir name (some n) ace g g0 d same e has = (same n refl, inr (d, e, has))

  named-GetsName :
      (act_dir : ℕ) (name : List ℕ) (old : Option NEntry) (g0 : Globals W) (d : Dirop)
      (r : Found ℕ × Globals W)
      → ((n : NEntry) → old ≡ some n → n.ne_name ≡ name)
      → (calls.nfs_lookup g0.world (g0.dirs.dces act_dir).dce_nfs_fh name).1 ≡ entry d
      → Inserts calls d.file d.attributes r
      → GetsName act_dir name g0 (named calls act_dir name old d.attributes r)
  unfolding named
  named-GetsName act_dir name old g0 d (missing x, g) same e i = inr refl
  named-GetsName act_dir name old g0 d (entry ace, g) same e i =
      put_name-GetsName act_dir name old ace g g0 d same e i

  -- The premises of `GetNameEntry` on the table of attributes, the clock and the server
  abbrev pub Fit : Globals W → Type 0
  Fit g =
      IsCounted g.attrs.attr_cache
      × ((w : W)
          → (g.attrs.attr_cache.tht_ttl ≤ calls.fthash_now w) × (calls.fthash_now w < 2 ^ 32))

  from_server-GetsName :
      (act_dir : ℕ) (name : List ℕ) (old : Option NEntry) (g0 g : Globals W) (a : Found Dirop)
      → ((n : NEntry) → old ≡ some n → n.ne_name ≡ name)
      → Fit g
      → ((w : W) (fh : NfsFh) (n : List ℕ) (d : Dirop)
          → (calls.nfs_lookup w fh n).1 ≡ entry d
          → d.attributes.fileid < 2 ^ 32)
      → (calls.nfs_lookup g.world (g.dirs.dces act_dir).dce_nfs_fh name).1 ≡ a
      → (calls.nfs_lookup g0.world (g0.dirs.dces act_dir).dce_nfs_fh name).1 ≡ a
      → GetsName act_dir name g0 (name_from_server calls act_dir name old g)
  unfolding name_from_server
  from_server-GetsName act_dir name old g0 g (missing x) same (c, clock) ids e e0 =
      rw (e, name_from_server) (inl e0)
  from_server-GetsName act_dir name old g0 g (entry d) same (c, clock) ids e e0 =
      rw (e, name_from_server)
        (named-GetsName act_dir name old g0 d _ same e0 (
          insert_attr-Inserts calls d.file d.attributes _ (c, (clock _).0, (clock _).1)
            (ids g.world _ name d e)))

  cached-GetsName :
      (act_dir : ℕ) (name : List ℕ) (n : NEntry) (g0 g : Globals W)
      → n.ne_name ≡ name
      → Fit g
      → ((w : W) (fh : NfsFh) (n : List ℕ) (d : Dirop)
          → (calls.nfs_lookup w fh n).1 ≡ entry d
          → d.attributes.fileid < 2 ^ 32)
      → g.world ≡ g0.world
      → (ne_lookup act_dir name g0.dirs).0 ≡ some n
      → (lookup_attr calls n.ne_file_id g).0 ≡ (lookup_attr calls n.ne_file_id g0).0
      → (g.dirs.dces act_dir).dce_nfs_fh ≡ (g0.dirs.dces act_dir).dce_nfs_fh
      → GetsName act_dir name g0 (cached_name calls act_dir name n g)
  unfolding cached_name lookup_attr
  cached-GetsName act_dir name n g0 g same (c, clock) ids w0 known attrs0 fh0 =
      elim (Option-cases (lookup_attr calls n.ne_file_id g).0) [
        | inr (ace, found) ↦ rw (found, cached_name) (same, inl (w0, known, sym attrs0 ∙ found))
        | inl none_yet ↦
            let (k, ttl) = lookup-keeps (calls.fthash_now g.world) n.ne_file_id g.attrs c in
            rw (none_yet, cached_name)
              (from_server-GetsName act_dir name (some n) g0 (lookup_attr calls n.ne_file_id g).1 _
                (λ m e. sym (ap (λ x. x.ne_name) (some_injective n m e)) ∙ same)
                (k, λ w. (omega (arith, ttl, (clock w).0), (clock w).1)) ids refl
                (ap₂ (λ w fh. (calls.nfs_lookup w fh name).1) (sym w0) (sym fh0)))
      ]

  -- `GetNameEntry` gives an entry of the name that is asked for. Either the name is in
  -- the cache of directories and its attributes are in the other one, the entries are those that
  -- lookups there give, and the server is not called; or the attributes are those that the server gives, and the next lookup
  -- of the cache finds them. An error is that of the server, or ERROR_NO_FREE_STORE. The premises:
  -- the table of attributes counts its entries, the clock has 32 bits and is past the first
  -- timeout, and the server numbers files by 32 bits.
  pub get_name_entry-GetsName :
      (act_dir : ℕ) (name : List ℕ) (g : Globals W)
      → IsCounted g.attrs.attr_cache
      → ((w : W)
          → (g.attrs.attr_cache.tht_ttl ≤ calls.fthash_now w) × (calls.fthash_now w < 2 ^ 32))
      → ((w : W) (fh : NfsFh) (n : List ℕ) (d : Dirop)
          → (calls.nfs_lookup w fh n).1 ≡ entry d
          → d.attributes.fileid < 2 ^ 32)
      → GetsName act_dir name g (get_name_entry calls g act_dir name)
  unfolding get_name_entry lookup_attr
  get_name_entry-GetsName act_dir name g c clock ids =
      let g1 = record g { dirs = (ne_lookup act_dir name g.dirs).1 } in
      let same_dir = ap (λ f. (f act_dir).dce_nfs_fh) (ne_lookup-dces act_dir name g.dirs) in
      elim (Option-cases (ne_lookup act_dir name g.dirs).0) [
        | inl unknown ↦
            rw (unknown, get_name_entry)
              (from_server-GetsName act_dir name none g g1 _ (λ n e. absurd (cc)) (c, clock) ids
                refl (ap (λ fh. (calls.nfs_lookup g.world fh name).1) (sym same_dir)))
        | inr (n, known) ↦
            rw (known, get_name_entry)
              (cached-GetsName act_dir name n g g1
                (found_name (ne_str2hash name) name _ n
                  (sym (ne_lookup-found act_dir name g.dirs) ∙ known))
                (c, clock) ids refl known refl same_dir)
      ]
