-- ===== src/Nfs/Lookup.antt =====
-- `nfs_ReadDir`, `nfs_LookupNC`, `nfs_ILookup` and `nfs_Lookup` of src/nfs.c: the search for a name,
-- first as it is, then in the list of the directory without regard to case.
pub mod Laws
pub mod Tests
use anfs.Base.{
  ℕ, zero, suc, Bool, true, false, Option, none, some, ◌⊎◌, inl, inr, List, [], ◌∷◌, length, min,
  leb, if◌then◌else◌,
}
use anfs.Nfssupp.{
  Nfsstat, IoErr, nfserr_noent, error_object_not_found, Acttype, nfs_err2io_err_cont, client2io_err,
}
use anfs.Nfs.MRead.{nfs_maxdata}
use anfs.Attrs.{NfsFh}
use anfs.Lock.Entries.{Dirop}

-- `entry`; the list of entries is a list, the four bytes of a cookie are a number.
pub record Dirent : Type 0 where
  pub name : List ℕ
  pub cookie : ℕ

-- `diropres *`: NULL, a status other than NFS_OK, or the handle and the attributes
pub data Diropres : Type 0 where
  no_reply : Diropres
  refused : Nfsstat → Diropres
  diropres : Dirop → Diropres

-- `readdirres *`: NULL, a status other than NFS_OK, or entries and whether they are the last ones
pub data Readdirres : Type 0 where
  no_reply : Readdirres
  refused : Nfsstat → Readdirres
  reply : List Dirent → (eof : Bool) → Readdirres

-- The calls of the server, and the comparisons of C without regard to case, true where these give 0
pub record Names (W : Type 0) : Type 0 where
  pub nfsproc_lookup : W → NfsFh → List ℕ → W × Diropres
  pub nfsproc_readdir : W → NfsFh → (cookie count : ℕ) → W × Readdirres
  pub clnt_stat : W → ℕ
  pub stricmp : List ℕ → List ℕ → Bool
  pub strnicmp : List ℕ → List ℕ → ℕ → Bool

-- A file, NULL with `*Res2`, a copy that does not fit into `Name`, or a search without an end
pub data Looked : Type 0 where
  found : Dirop → Looked
  null : (res2 : IoErr) → Looked
  overruns : Looked
  runs_on : Looked

-- What `nfs_ReadDir` leaves in `*Eof` and `*Res2`, with its entries; NULL is the empty list.
pub record Dirread : Type 0 where
  pub entries : List Dirent
  pub eof : Bool
  pub res2 : IoErr

-- The size of `Name` in `nfs_LookupNC`
abbrev pub name_size : ℕ
name_size = 255

-- The loop over a page: the name of the first entry that `matches`, or the cookie behind the page
unfoldable pub scan_page : (matches : List ℕ → Bool) → List Dirent → (mynfscookie : ℕ) → List ℕ ⊎ ℕ
scan_page matches [] c = inr c
scan_page matches (e ∷ []) c = if matches e.name then inl e.name else inr e.cookie
scan_page matches (e ∷ e' ∷ es) c =
    let rest = scan_page matches (e' ∷ es) c in if matches e.name then inl e.name else rest

module _ {W : Type 0} (calls : Names W) where
  -- The answer to a request for a page
  unfoldable pub read_page : (stat : ℕ) → Readdirres → (eof : Bool) → (res2 : IoErr) → Dirread
  read_page stat Readdirres.no_reply eof res2 = record {
    entries = [];
    eof = eof;
    res2 = client2io_err stat;
  }
  read_page stat (Readdirres.refused s) eof res2 = record {
    entries = [];
    eof = eof;
    res2 = nfs_err2io_err_cont s Acttype.read;
  }
  read_page stat (Readdirres.reply es last) eof res2 = record {
    entries = es;
    eof = last;
    res2 = res2;
  }

  -- `nfs_ReadDir`
  unfoldable pub nfs_read_dir :
      W → NfsFh → (cookie buf_size : ℕ) → (eof : Bool) → (res2 : IoErr) → W × Dirread
  unfolding read_page
  nfs_read_dir w dir cookie buf_size eof res2 =
      let (w', res) = calls.nfsproc_readdir w dir cookie buf_size in
      (w', read_page (calls.clnt_stat w') res eof res2)

  -- The answer to a lookup; `search` is the search without regard to case, where it is wanted.
  unfoldable pub looked_up : (search : Option (W → W × Looked)) → W → Diropres → W × Looked
  looked_up search w Diropres.no_reply = (w, null (client2io_err (calls.clnt_stat w)))
  looked_up (some search) w (Diropres.refused nfserr_noent) = search w
  looked_up search w (Diropres.refused s) = (w, null (nfs_err2io_err_cont s Acttype.read))
  looked_up search w (Diropres.diropres d) = (w, found d)

  -- `nfs_ILookup`; `search` is `nfs_LookupNC` if `DoCaseInsensitive`.
  unfoldable pub nfs_i_lookup : W → NfsFh → List ℕ → (search : Option (W → W × Looked)) → W × Looked
  unfolding looked_up
  nfs_i_lookup w dirfh name search =
      let (w', res) = calls.nfsproc_lookup w dirfh name in looked_up search w' res

  -- The comparison of `nfs_LookupNC`
  unfoldable pub is_name : (name : List ℕ) → List ℕ → Bool
  is_name name entry =
      if leb 106 (length name) then calls.strnicmp entry name 106 else calls.stricmp entry name

  -- `strcpy` of the name that was found, and the lookup of the copy
  unfoldable pub look_up_copy : NfsFh → W → List ℕ → W × Looked
  unfolding nfs_i_lookup
  look_up_copy dirfh w entry =
      if leb name_size (length entry) then (w, overruns) else nfs_i_lookup w dirfh entry none

  -- A page with entries; `go` is the rest of the loop.
  unfoldable pub after_scan :
      (go : W → (mynfscookie : ℕ) → (eof : Bool) → (res2 : IoErr) → W × Looked)
      → NfsFh
      → W
      → (eof : Bool) → (res2 : IoErr) → List ℕ ⊎ ℕ
      → W × Looked
  unfolding look_up_copy
  after_scan go dirfh w eof res2 (inl entry) = look_up_copy dirfh w entry
  after_scan go dirfh w true res2 (inr c) = (w, null error_object_not_found)
  after_scan go dirfh w false res2 (inr c) = go w c false res2

  -- A round of the `while`; `go` is the rest of the loop.
  unfoldable pub after_page :
      (go : W → (mynfscookie : ℕ) → (eof : Bool) → (res2 : IoErr) → W × Looked)
      → NfsFh
      → (name : List ℕ) → (mynfscookie : ℕ) → W
      → (entries : List Dirent) → (eof : Bool) → (res2 : IoErr) → W × Looked
  unfolding after_scan scan_page is_name
  after_page go dirfh name c w [] eof res2 =
      (w, null (if eof then error_object_not_found else res2))
  after_page go dirfh name c w (e ∷ es) eof res2 =
      after_scan go dirfh w eof res2 (scan_page (is_name name) (e ∷ es) c)

  -- The `while`
  unfoldable pub search_pages :
      NfsFh
      → (name : List ℕ) → (max_read : ℕ) → (fuel : ℕ) → W
      → (mynfscookie : ℕ) → (eof : Bool) → (res2 : IoErr) → W × Looked
  unfolding after_page nfs_read_dir
  search_pages dirfh name max_read zero w c eof res2 = (w, runs_on)
  search_pages dirfh name max_read (suc fuel) w c eof res2 =
      let go = search_pages dirfh name max_read fuel in
      let (w', page) = nfs_read_dir w dirfh c max_read eof res2 in
      after_page go dirfh name c w' (page.entries) (page.eof) (page.res2)

  -- `nfs_LookupNC`
  unfoldable pub nfs_lookup_nc :
      (fuel : ℕ) → NfsFh → (name : List ℕ) → (max_read : ℕ) → (res2 : IoErr) → W → W × Looked
  unfolding search_pages
  nfs_lookup_nc fuel dirfh name max_read res2 w =
      search_pages dirfh name (min max_read nfs_maxdata) fuel w 0 false res2

  -- `nfs_Lookup`
  unfoldable pub nfs_lookup :
      (fuel : ℕ) → NfsFh → (name : List ℕ) → (max_read : ℕ) → (res2 : IoErr) → W → W × Looked
  unfolding nfs_i_lookup nfs_lookup_nc
  nfs_lookup fuel dirfh name max_read res2 w =
      nfs_i_lookup w dirfh name (some (nfs_lookup_nc fuel dirfh name max_read res2))
