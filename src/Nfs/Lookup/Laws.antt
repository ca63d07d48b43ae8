-- ===== src/Nfs/Lookup/Laws.antt =====
-- `nfs_Lookup` of src/nfs.c against a search in the whole list of the directory.
use anfs.Base.{
  ℕ, zero, suc, ◌<◌, ◌≤◌, min, ◌≡◌, refl, sym, ap, ◌∙◌, Bool, true, false, Option, none, some, ◌⊎◌,
  inl, inr, List, [], ◌∷◌, ◌++◌, length, length-append, leb, if◌then◌else◌, arith, Bool-cases,
}
use mathlib.Core.Path.{subst}
use mathlib.Core.List.{append-nil}
use anfs.Nfssupp.{
  IoErr, nfserr_noent, error_object_not_found, Acttype, nfs_err2io_err_cont, client2io_err,
}
use anfs.Nfs.MRead.{nfs_maxdata}
use anfs.Attrs.{NfsFh}
use anfs.Nfs.Lookup.{
  Dirent, Diropres, Readdirres, Names, Looked, found, null, overruns, name_size, scan_page, is_name,
  looked_up, look_up_copy, nfs_i_lookup, after_scan, after_page, read_page, nfs_read_dir,
  search_pages, nfs_lookup_nc, nfs_lookup,
}

-- The name of the first entry that `matches`
unfoldable pub first_name : (matches : List ℕ → Bool) → List Dirent → Option (List ℕ)
first_name matches [] = none
first_name matches (e ∷ es) =
    let rest = first_name matches es in if matches e.name then some e.name else rest

-- The cookie of the last entry of a page, or the one that the page was asked for with
unfoldable pub last_cookie : ℕ → List Dirent → ℕ
last_cookie c [] = c
last_cookie c (e ∷ es) = last_cookie e.cookie es

-- A directory that does not change: `rest` is what the list has behind a cookie. A page is a part of
-- it, from its start; it is the last one if the answer says so, and otherwise the cookie of its
-- last entry is that of the entries behind it.
pub record Listing {W : Type 0} (calls : Names W) (dir : NfsFh) : Type 0 where
  pub rest : ℕ → List Dirent
  pub last_page :
      (w : W) (c n : ℕ) (es : List Dirent)
      → (calls.nfsproc_readdir w dir c n).1 ≡ Readdirres.reply es true
      → rest c ≡ es
  pub page :
      (w : W) (c n : ℕ) (es : List Dirent)
      → (calls.nfsproc_readdir w dir c n).1 ≡ Readdirres.reply es false
      → rest c ≡ es ++ rest (last_cookie c es)

module _ {W : Type 0} (calls : Names W) (dir : NfsFh) (listing : Listing calls dir) (max_read : ℕ)
    (old_res2 : IoErr) where
  -- An answer that ends a search before it has seen the whole list
  abbrev pub Fails : Looked → Readdirres → Type 0
  Fails r Readdirres.no_reply = (w : W) × (r ≡ null (client2io_err (calls.clnt_stat w)))
  Fails r (Readdirres.refused s) = r ≡ null (nfs_err2io_err_cont s Acttype.read)
  Fails r (Readdirres.reply es eof) = (es ≡ []) × (eof ≡ false) × (r ≡ null old_res2)

  -- A page could not be read, and the result has the error.
  abbrev pub PageFails : Looked → Type 0
  PageFails r =
      (w : W) × (c : ℕ) × Fails r (calls.nfsproc_readdir w dir c (min max_read nfs_maxdata)).1

  -- The result where the first name that matches is this one
  abbrev pub GivesFirst : W × Looked → Option (List ℕ) → Type 0
  GivesFirst (w, r) none = r ≡ null error_object_not_found
  GivesFirst (w, r) (some n) =
      ((v : W) × (length n < name_size) × ((w, r) ≡ nfs_i_lookup calls v dir n none))
      ⊎ ((name_size ≤ length n) × (r ≡ overruns))

  -- The result of a search without regard to case, where the first name that matches is this one
  abbrev pub Searches : W × Looked → Option (List ℕ) → Type 0
  Searches p first = PageFails p.1 ⊎ GivesFirst p first

  scan_page-first :
      (matches : List ℕ → Bool) (es t : List Dirent) (c : ℕ)
      → ((n : List ℕ) × (scan_page matches es c ≡ inl n) × (first_name matches (es ++ t) ≡ some n))
        ⊎ ((scan_page matches es c ≡ inr (last_cookie c es))
            × (first_name matches (es ++ t) ≡ first_name matches t))
  unfolding scan_page last_cookie first_name
  scan_page-first matches [] t c = inr (refl, refl)
  scan_page-first matches (e ∷ []) t c = elim (Bool-cases (matches e.name)) [
    | inl y ↦ inl (e.name, rw y refl, rw y refl)
    | inr y ↦ inr (rw y refl, rw y refl)
  ]
  scan_page-first matches (e ∷ e' ∷ es) t c = elim (Bool-cases (matches e.name)) [
    | inl y ↦ inl (e.name, rw y refl, rw y refl)
    | inr y ↦ rw y (scan_page-first matches (e' ∷ es) t c)
  ]

  look_up_copy-GivesFirst : (w : W) (n : List ℕ) → GivesFirst (look_up_copy calls dir w n) (some n)
  unfolding look_up_copy
  look_up_copy-GivesFirst w n = elim (Bool-cases (leb name_size (length n))) [
    | inl long ↦ rw long (inr (ground arith, refl))
    | inr fits ↦ rw fits (inl (w, ground arith, refl))
  ]

  -- A page with entries: what follows it is right if it is right where none of them matches.
  page-Searches :
      (go : W → ℕ → Bool → IoErr → W × Looked) (name : List ℕ) (c : ℕ) (w : W) (e : Dirent)
      (es t : List Dirent) (eof : Bool)
      → Searches
          (after_scan calls go dir w eof old_res2 (inr (last_cookie c (e ∷ es))))
          (first_name (is_name calls name) t)
      → Searches
          (after_page calls go dir name c w (e ∷ es) eof old_res2)
          (first_name (is_name calls name) ((e ∷ es) ++ t))
  unfolding after_page after_scan
  page-Searches go name c w e es t eof later =
      elim (scan_page-first (is_name calls name) (e ∷ es) t c) [
        | inl (n, s, first) ↦
            subst (Searches (after_page calls go dir name c w (e ∷ es) eof old_res2)) (sym first) (
              subst (λ x. Searches (after_scan calls go dir w eof old_res2 x) (some n)) (sym s)
                (inr (look_up_copy-GivesFirst w n)))
        | inr (s, first) ↦
            subst (Searches (after_page calls go dir name c w (e ∷ es) eof old_res2)) (sym first) (
              subst
                (λ x.
                  Searches (after_scan calls go dir w eof old_res2 x)
                    (first_name (is_name calls name) t))
                (sym s) later)
      ]

  module _ (name : List ℕ) where
    abbrev first : List Dirent → Option (List ℕ)
    first = first_name (is_name calls name)

    abbrev loop : ℕ → W → ℕ → Bool → IoErr → W × Looked
    loop fuel = search_pages calls dir name (min max_read nfs_maxdata) fuel

    abbrev Continues : ℕ → Type 0
    Continues fuel =
        (w : W) (c : ℕ)
        → length (listing.rest c) < fuel
        → Searches (loop fuel w c false old_res2) (first (listing.rest c))

    -- A round, by the answer for the page
    round-Searches :
        (fuel : ℕ) (w v : W) (c : ℕ) (a : Readdirres)
        → (calls.nfsproc_readdir w dir c (min max_read nfs_maxdata)).1 ≡ a
        → Continues fuel
        → length (listing.rest c) ≤ fuel
        → Searches
            (let page = read_page calls (calls.clnt_stat v) a false old_res2 in
              after_page calls (loop fuel) dir name c v (page.entries) (page.eof) (page.res2))
            (first (listing.rest c))
    unfolding after_page after_scan read_page first_name last_cookie
    round-Searches fuel w v c Readdirres.no_reply a again fu = inl (w, c, rw a (v, refl))
    round-Searches fuel w v c (Readdirres.refused s) a again fu = inl (w, c, rw a refl)
    round-Searches fuel w v c (Readdirres.reply [] false) a again fu =
        inl (w, c, rw a (refl, refl, refl))
    round-Searches fuel w v c (Readdirres.reply [] true) a again fu =
        inr (rw (listing.last_page w c _ [] a) refl)
    round-Searches fuel w v c (Readdirres.reply (d ∷ es) true) a again fu =
        subst
          (λ l.
            Searches (after_page calls (loop fuel) dir name c v (d ∷ es) true old_res2) (first l))
          (append-nil (d ∷ es) ∙ sym (listing.last_page w c _ (d ∷ es) a))
          (page-Searches (loop fuel) name c v d es [] true (inr refl))
    round-Searches fuel w v c (Readdirres.reply (d ∷ es) false) a again fu =
        subst
          (λ l.
            Searches (after_page calls (loop fuel) dir name c v (d ∷ es) false old_res2) (first l))
          (sym (listing.page w c _ (d ∷ es) a))
          (page-Searches (loop fuel) name c v d es (listing.rest (last_cookie c (d ∷ es))) false (
            again v (last_cookie c (d ∷ es)) (
              omega (
                arith,
                ap length (listing.page w c _ (d ∷ es) a),
                length-append (d ∷ es) (listing.rest (last_cookie c (d ∷ es))),
              ))))

    search_pages-Searches : (fuel : ℕ) → Continues fuel
    unfolding search_pages nfs_read_dir
    search_pages-Searches zero w c fu = absurd (omega arith)
    search_pages-Searches (suc fuel) w c fu =
        round-Searches fuel w _ c _ refl (search_pages-Searches fuel) (omega arith)

    -- The result of `nfs_Lookup`, by the answer to the first call
    abbrev pub LooksUp : W × Looked → Diropres → Type 0
    LooksUp p Diropres.no_reply = (w : W) × (p.1 ≡ null (client2io_err (calls.clnt_stat w)))
    LooksUp p (Diropres.refused nfserr_noent) = Searches p (first (listing.rest 0))
    LooksUp p (Diropres.refused s) = p.1 ≡ null (nfs_err2io_err_cont s Acttype.read)
    LooksUp p (Diropres.diropres d) = p.1 ≡ found d

    looked_up-LooksUp :
        (fuel : ℕ) (w : W) (a : Diropres)
        → length (listing.rest 0) < fuel
        → LooksUp
            (looked_up calls (some (nfs_lookup_nc calls fuel dir name max_read old_res2)) w a)
            a
    unfolding looked_up nfs_lookup_nc
    looked_up-LooksUp fuel w Diropres.no_reply fu = (w, refl)
    looked_up-LooksUp fuel w (Diropres.refused nfserr_noent) fu = search_pages-Searches fuel w 0 fu
    looked_up-LooksUp fuel w (Diropres.refused s) fu = refl
    looked_up-LooksUp fuel w (Diropres.diropres d) fu = refl

    -- `nfs_Lookup` of a name in a directory that does not change, with more rounds than it has entries,
    -- ends. A file that the server has under the name is found. Where the server knows no such name,
    -- the result is the answer for the first name in the whole list of the directory that is equal
    -- without regard to case, for a long name in its first 106 characters, or
    -- `ERROR_OBJECT_NOT_FOUND` if no name is; but a first name of 255 characters or more overruns the
    -- copy. An error of the server is the result, and an empty page that is not the last one ends the
    -- search with the old `*Res2`.
    pub nfs_lookup-LooksUp :
        (fuel : ℕ) (w : W)
        → length (listing.rest 0) < fuel
        → LooksUp
            (nfs_lookup calls fuel dir name max_read old_res2 w)
            (calls.nfsproc_lookup w dir name).1
    unfolding nfs_lookup nfs_i_lookup
    nfs_lookup-LooksUp fuel w fu = looked_up-LooksUp fuel _ (calls.nfsproc_lookup w dir name).1 fu
