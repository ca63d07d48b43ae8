-- ===== src/Nfs/Lookup/Tests.antt =====
-- A directory of three files, listed one by one, and lookups in it.
use anfs.Base.{
  ℕ, zero, suc, ◌+◌, ◌≡◌, refl, ap, Bool, true, false, ◌&&◌, List, [], ◌∷◌, ◌++◌, ◌==◌, leb,
  if◌then◌else◌, arith,
}
use anfs.Nfssupp.{no_error, nfserr_noent, error_object_not_found}
use anfs.Lock.Entries.{Dirop}
use anfs.Lock.Entries.Tests.{directory}
use anfs.Nfs.Lookup.{Dirent, Diropres, Readdirres, Names, found, null, nfs_lookup, scan_page}
use anfs.Nfs.Lookup.Laws.{Listing, last_cookie, LooksUp, nfs_lookup-LooksUp}

abbrev lower : ℕ → ℕ
lower c = if leb 65 c && leb c 90 then c + 32 else c

abbrev same_nocase : List ℕ → List ℕ → Bool
same_nocase [] [] = true
same_nocase (a ∷ xs) (b ∷ ys) = (lower a == lower b) && same_nocase xs ys
same_nocase xs ys = false

abbrev same : List ℕ → List ℕ → Bool
same [] [] = true
same (a ∷ xs) (b ∷ ys) = (a == b) && same xs ys
same xs ys = false

-- "B", "aB" and "Ab"
abbrev ent_b : Dirent
ent_b = record { name = 66 ∷ []; cookie = 1 }

abbrev ent_ab : Dirent
ent_ab = record { name = 97 ∷ 66 ∷ []; cookie = 2 }

abbrev ent_ab2 : Dirent
ent_ab2 = record { name = 65 ∷ 98 ∷ []; cookie = 3 }

abbrev rest : ℕ → List Dirent
rest zero = ent_b ∷ ent_ab ∷ ent_ab2 ∷ []
rest (suc zero) = ent_ab ∷ ent_ab2 ∷ []
rest (suc (suc zero)) = ent_ab2 ∷ []
rest (suc (suc (suc c))) = []

abbrev page_at : ℕ → Readdirres
page_at zero = Readdirres.reply (ent_b ∷ []) false
page_at (suc zero) = Readdirres.reply (ent_ab ∷ []) false
page_at (suc (suc zero)) = Readdirres.reply (ent_ab2 ∷ []) true
page_at (suc (suc (suc c))) = Readdirres.reply [] true

abbrev file_ab : Dirop
file_ab = record { file = 7 ∷ []; attributes = directory 7 }

-- The world counts the calls; the server knows the name "aB" as it is written.
abbrev server : Names ℕ
server = record {
  nfsproc_lookup = λ w dir name. (
    w + 1,
    if same name (97 ∷ 66 ∷ []) then Diropres.diropres file_ab else Diropres.refused nfserr_noent,
  );
  nfsproc_readdir = λ w dir c n. (w + 1, page_at c);
  clnt_stat = λ w. 0;
  stricmp = same_nocase;
  strnicmp = λ a b n. false;
}

abbrev entries_of : Readdirres → List Dirent
entries_of Readdirres.no_reply = []
entries_of (Readdirres.refused s) = []
entries_of (Readdirres.reply es eof) = es

last_page_at : (c : ℕ) (es : List Dirent) → page_at c ≡ Readdirres.reply es true → rest c ≡ es
last_page_at zero es a = absurd (cc)
last_page_at (suc zero) es a = absurd (cc)
last_page_at (suc (suc zero)) es a = ap entries_of a
last_page_at (suc (suc (suc c))) es a = ap entries_of a

next_page_at :
    (c : ℕ) (es : List Dirent)
    → page_at c ≡ Readdirres.reply es false
    → rest c ≡ es ++ rest (last_cookie c es)
unfolding last_cookie
next_page_at zero es a = ap (λ l. l ++ rest (last_cookie 0 l)) (ap entries_of a)
next_page_at (suc zero) es a = ap (λ l. l ++ rest (last_cookie 1 l)) (ap entries_of a)
next_page_at (suc (suc zero)) es a = absurd (cc)
next_page_at (suc (suc (suc c))) es a = absurd (cc)

abbrev three_files : Listing server (5 ∷ [])
three_files = record {
  rest = rest;
  last_page = λ w c n es. last_page_at c es;
  page = λ w c n es. next_page_at c es;
}

-- "ab" is the second entry, "Bb" is none.
finds_second : nfs_lookup server 4 (5 ∷ []) (97 ∷ 98 ∷ []) 8192 no_error 0 ≡ (4, found file_ab)
unfolding nfs_lookup scan_page
finds_second = refl

finds_none :
    nfs_lookup server 4 (5 ∷ []) (66 ∷ 98 ∷ []) 8192 no_error 0 ≡ (4, null error_object_not_found)
unfolding nfs_lookup scan_page
finds_none = refl

nfs_lookup-LooksUp_example :
    LooksUp server
      (5 ∷ [])
      three_files
      8192
      no_error
      (97 ∷ 98 ∷ [])
      (nfs_lookup server 4 (5 ∷ []) (97 ∷ 98 ∷ []) 8192 no_error 0)
      (server.nfsproc_lookup 0 (5 ∷ []) (97 ∷ 98 ∷ [])).1
nfs_lookup-LooksUp_example =
    nfs_lookup-LooksUp server (5 ∷ []) three_files 8192 no_error (97 ∷ 98 ∷ []) 4 0 (omega arith)
