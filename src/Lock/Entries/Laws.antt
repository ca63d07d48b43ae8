-- ===== src/Lock/Entries/Laws.antt =====
-- `c_GetAttr` gives what the cache holds, or what the server says, and then the cache holds it.
use anfs.Base.{
  ℕ, ◌^◌, ◌<◌, ◌≤◌, ◌≡◌, refl, sym, inl, inr, ◌⊎◌, Bool, Option, none, some, ◌==◌, arith,
  Bool-cases, Option-cases,
}
use mathlib.Core.Path.{subst}
use anfs.Nfssupp.{error_no_free_store}
use anfs.Fthash.Count.{IsCounted}
use anfs.Attrs.{NfsFh, Fattr, Cache, attrs_update, attrs_create_and_insert}
use anfs.Attrs.Laws.{
  Updates, create-Updates, attrs_update-Updates, lookup-keeps, lookup-again, update-found,
}
use anfs.Dcache.{dce_id_unused}
use anfs.Lock.{Found, entry, missing}
use anfs.Lock.Entries.{
  Calls, Globals, lookup_attr, update_attr, create_if_missing, insert_attr, get_attr_from_server,
  c_get_attr,
}

module _ {W : Type 0} (calls : Calls W) where
  -- The cache finds the entry under the number of the file, and it has the attributes.
  abbrev pub HasAttr : (ace : ℕ) → NfsFh → Fattr → Globals W → Type 0
  HasAttr ace fh fattr g =
      ((lookup_attr calls fattr.fileid g).0 ≡ some ace)
      × ((g.attrs.aces ace).ace_nfs_fh ≡ fh)
      × ((g.attrs.aces ace).ace_fattr ≡ fattr)

  abbrev pub Inserts : NfsFh → Fattr → Found ℕ × Globals W → Type 0
  Inserts fh fattr (entry ace, g) = HasAttr ace fh fattr g
  Inserts fh fattr (missing e, g) = e ≡ error_no_free_store

  -- What `c_GetAttr` gives: the entry that the cache had, without a call of the server; or an entry
  -- with the attributes that the server gives; or an error, of the server or of memory
  abbrev pub GetsAttr : (file_id : ℕ) → NfsFh → Globals W → Found ℕ × Globals W → Type 0
  GetsAttr file_id fh g (entry ace, g') =
      (((lookup_attr calls file_id g).0 ≡ some ace) × (g'.world ≡ g.world))
      ⊎ ((fattr : Fattr) × ((calls.nfs_get_attr g.world fh).1 ≡ entry fattr)
          × HasAttr ace fh fattr g')
  GetsAttr file_id fh g (missing e, g') =
      ((calls.nfs_get_attr g.world fh).1 ≡ missing e) ⊎ (e ≡ error_no_free_store)

  -- The cache counts its entries, and the time is not before the first timeout.
  abbrev pub Ready : Globals W → Type 0
  Ready g =
      IsCounted g.attrs.attr_cache
      × (g.attrs.attr_cache.tht_ttl ≤ calls.fthash_now g.world)
      × (calls.fthash_now g.world < 2 ^ 32)

  lookup_attr-Ready :
      (file_id : ℕ) (g : Globals W) → Ready g → Ready (lookup_attr calls file_id g).1
  unfolding lookup_attr
  lookup_attr-Ready file_id g (c, t, h) =
      let (k, ttl) = lookup-keeps (calls.fthash_now g.world) file_id g.attrs c in
      (k, omega (arith, ttl), h)

  -- What follows a creation in the cache
  abbrev finish : Globals W → Option ℕ × Cache → Found ℕ × Globals W
  finish g r = elim r.0 [
    | none ↦ (missing error_no_free_store, record g { attrs = r.1 })
    | some ace ↦ (entry ace, record g { attrs = r.1 })
  ]

  finish-Inserts :
      (fh : NfsFh) (fattr : Fattr) (g : Globals W) (alloc : Option ℕ) (memory : Bool)
      (r : Option ℕ × Cache)
      → Updates alloc memory (calls.fthash_now g.world) fh fattr r
      → Inserts fh fattr (finish g r)
  unfolding lookup_attr
  finish-Inserts fh fattr g alloc memory (none, cache) u = refl
  finish-Inserts fh fattr g alloc memory (some ace, cache) u = u

  create_if_missing-finish :
      (fh : NfsFh) (fattr : Fattr) (g : Globals W)
      → create_if_missing calls fh fattr (none, g)
        ≡ finish g (
            attrs_create_and_insert
              (calls.alloc_vec g.world)
              (calls.table_memory g.world)
              (calls.fthash_now g.world)
              fh
              fattr
              g.attrs)
  unfolding create_if_missing
  create_if_missing-finish fh fattr g = refl

  create_if_missing-Inserts :
      (fh : NfsFh) (fattr : Fattr) (g : Globals W)
      → Ready g
      → fattr.fileid < 2 ^ 32
      → Inserts fh fattr (create_if_missing calls fh fattr (none, g))
  create_if_missing-Inserts fh fattr g (c, t, h) id =
      subst (Inserts fh fattr) (sym (create_if_missing-finish fh fattr g)) (
        finish-Inserts fh fattr g (calls.alloc_vec g.world) (calls.table_memory g.world) _ (
          create-Updates (calls.alloc_vec g.world) (calls.table_memory g.world)
            (calls.fthash_now g.world) fh fattr g.attrs c id t h))

  update_finish :
      (fh : NfsFh) (fattr : Fattr) (g : Globals W) (ace : ℕ)
      → (lookup_attr calls fattr.fileid g).0 ≡ some ace
      → create_if_missing calls fh fattr (update_attr calls fh fattr g)
        ≡ finish g (
            attrs_update
              (calls.alloc_vec g.world)
              (calls.table_memory g.world)
              (calls.fthash_now g.world)
              fh
              fattr
              g.attrs)
  unfolding update_attr create_if_missing lookup_attr
  update_finish fh fattr g ace found =
      let updated =
        update-found (calls.alloc_vec g.world) (calls.table_memory g.world)
          (calls.fthash_now g.world) ace fh fattr g.attrs found in
      rw (updated, create_if_missing, finish) refl

  updated-Inserts :
      (fh : NfsFh) (fattr : Fattr) (g : Globals W) (ace : ℕ)
      → Ready g
      → fattr.fileid < 2 ^ 32
      → (lookup_attr calls fattr.fileid g).0 ≡ some ace
      → Inserts fh fattr (create_if_missing calls fh fattr (update_attr calls fh fattr g))
  updated-Inserts fh fattr g ace (c, t, h) id found =
      subst (Inserts fh fattr) (sym (update_finish fh fattr g ace found)) (
        finish-Inserts fh fattr g (calls.alloc_vec g.world) (calls.table_memory g.world) _ (
          attrs_update-Updates (calls.alloc_vec g.world) (calls.table_memory g.world)
            (calls.fthash_now g.world) fh fattr g.attrs c id t h))

  lookup_attr_again :
      (file_id ace : ℕ) (g : Globals W)
      → Ready g
      → (lookup_attr calls file_id g).0 ≡ some ace
      → (lookup_attr calls file_id (lookup_attr calls file_id g).1).0 ≡ some ace
  unfolding lookup_attr
  lookup_attr_again file_id ace g (c, t, h) found =
      lookup-again (calls.fthash_now g.world) file_id ace g.attrs c found

  pub insert_attr-Inserts :
      (fh : NfsFh) (fattr : Fattr) (g : Globals W)
      → Ready g
      → fattr.fileid < 2 ^ 32
      → Inserts fh fattr (insert_attr calls fh fattr g)
  unfolding insert_attr
  insert_attr-Inserts fh fattr g ready id =
      let ready' = lookup_attr-Ready fattr.fileid g ready in
      elim (Option-cases (lookup_attr calls fattr.fileid g).0) [
        | inl none_yet ↦
            rw (none_yet, insert_attr)
              (create_if_missing-Inserts fh fattr (lookup_attr calls fattr.fileid g).1 ready' id)
        | inr (ace, found) ↦
            rw (found, insert_attr)
              (updated-Inserts fh fattr (lookup_attr calls fattr.fileid g).1 ace ready' id
                (lookup_attr_again fattr.fileid ace g ready found))
      ]

  of_server :
      (file_id : ℕ) (fh : NfsFh) (fattr : Fattr) (g : Globals W) (r : Found ℕ × Globals W)
      → (calls.nfs_get_attr g.world fh).1 ≡ entry fattr
      → Inserts fh fattr r
      → GetsAttr file_id fh g r
  of_server file_id fh fattr g (entry ace, g') e i = inr (fattr, e, i)
  of_server file_id fh fattr g (missing x, g') e i = inr i

  from_server-GetsAttr :
      (file_id : ℕ) (fh : NfsFh) (g : Globals W) (cache : Cache) (a : Found Fattr)
      → IsCounted cache.attr_cache
      → ((w : W) → cache.attr_cache.tht_ttl ≤ calls.fthash_now w)
      → ((w : W) → calls.fthash_now w < 2 ^ 32)
      → ((w : W) (fattr : Fattr)
          → (calls.nfs_get_attr w fh).1 ≡ entry fattr
          → fattr.fileid < 2 ^ 32)
      → (calls.nfs_get_attr g.world fh).1 ≡ a
      → GetsAttr file_id fh g (get_attr_from_server calls fh (record g { attrs = cache }))
  unfolding get_attr_from_server
  from_server-GetsAttr file_id fh g cache (missing x) c late clock ids e =
      rw (e, get_attr_from_server) (inl e)
  from_server-GetsAttr file_id fh g cache (entry fattr) c late clock ids e =
      rw (e, get_attr_from_server)
        (of_server file_id fh fattr g _ e
          (insert_attr-Inserts fh fattr _ (c, late _, clock _) (ids g.world fattr e)))

  -- `c_GetAttr` gives the entry that the cache has under the number of the file, without a call of the
  -- server, or asks the server; the entry then has the handle and the attributes from the server, and
  -- the next lookup finds it. An error is that of the server, or ERROR_NO_FREE_STORE. The premises:
  -- the table counts its entries, the clock has 32 bits and is past the first timeout, and the server
  -- numbers files by 32 bits.
  pub c_get_attr-GetsAttr :
      (file_id : ℕ) (fh : NfsFh) (g : Globals W)
      → IsCounted g.attrs.attr_cache
      → ((w : W) → g.attrs.attr_cache.tht_ttl ≤ calls.fthash_now w)
      → ((w : W) → calls.fthash_now w < 2 ^ 32)
      → ((w : W) (fattr : Fattr)
          → (calls.nfs_get_attr w fh).1 ≡ entry fattr
          → fattr.fileid < 2 ^ 32)
      → GetsAttr file_id fh g (c_get_attr calls file_id fh g)
  unfolding c_get_attr lookup_attr
  c_get_attr-GetsAttr file_id fh g c late clock ids = elim (Bool-cases (file_id == dce_id_unused)) [
    | inl unused ↦
        rw (unused, c_get_attr) (from_server-GetsAttr file_id fh g g.attrs _ c late clock ids refl)
    | inr used ↦ elim (Option-cases (lookup_attr calls file_id g).0) [
      | inr (ace, found) ↦ rw (used, found, c_get_attr) (inl (found, refl))
      | inl none_yet ↦
          let (k, ttl) = lookup-keeps (calls.fthash_now g.world) file_id g.attrs c in
          rw (used, none_yet, c_get_attr)
            (from_server-GetsAttr file_id fh g _ _ k (λ w. omega (arith, ttl, late w)) clock ids
              refl)
    ]
  ]
