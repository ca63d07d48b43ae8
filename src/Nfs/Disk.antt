-- ===== src/Nfs/Disk.antt =====
-- A server with one file, on which the assumptions about servers hold.
use anfs.Base.{
  ℕ, ◌+◌, ◌-◌, ◌≤◌, ◌<◌, min, max, ◌≡◌, refl, sym, ap, ◌∙◌, List, [], length, Bytes, overlay, slice,
  length-slice, arith,
}
use anfs.Nfs.Calls.{Rpc, Readres, Attrstat, Server}

pub record Disk : Type 0 where
  pub bytes : Bytes
  pub len : ℕ

abbrev pub disk : Rpc Disk
disk = record {
  nfsproc_read = λ d o c. (d, Readres.reply (slice d.bytes o (min c (d.len - o))) d.len);
  nfsproc_write = λ d o bs. (
    record { bytes = overlay o bs d.bytes; len = max d.len (o + length bs) },
    Attrstat.attributes (max d.len (o + length bs)),
  );
  clnt_stat = λ d. 0;
}

reply_parts :
    (bs cs : List ℕ) (n m : ℕ) → Readres.reply bs n ≡ Readres.reply cs m → (bs ≡ cs) × (n ≡ m)
reply_parts bs cs n m e = (cc, cc)

slice_self :
    (f : Bytes) (o n : ℕ) (bs : List ℕ)
    → slice f o n ≡ bs
    → (bs ≡ slice f o (length bs)) × (length bs ≡ n)
slice_self f o n bs e =
    let l : length bs ≡ n = ap length (sym e) ∙ length-slice f o n in (rw l (sym e), l)

pub disk_read_bytes :
    (d : Disk) (o c : ℕ) (bs : List ℕ) (n : ℕ)
    → (disk.nfsproc_read d o c).1 ≡ Readres.reply bs n
    → (bs ≡ slice d.bytes o (length bs)) × (length bs ≤ c) × (n ≡ d.len)
disk_read_bytes d o c bs n e =
    let (here, size) = reply_parts _ bs _ n e in
    let (same, l) = slice_self d.bytes o (min c (d.len - o)) bs here in
    (same, omega arith, sym size)

pub disk_read_end :
    (d : Disk) (o c n : ℕ) → 0 < c → (disk.nfsproc_read d o c).1 ≡ Readres.reply [] n → d.len ≤ o
disk_read_end d o c n h e =
    let (here, size) = reply_parts _ [] _ n e in
    let (same, l) = slice_self d.bytes o (min c (d.len - o)) [] here in omega arith

abbrev pub disk_server : Server disk
disk_server = record {
  contents = λ d. d.bytes;
  size = λ d. d.len;
  read_keeps = λ d o c. (refl, refl);
  read_bytes = disk_read_bytes;
  read_end = disk_read_end;
  write_stores = λ d o bs n k e. refl;
  write_refused = λ d o bs s e. absurd (cc);
  write_lost = λ d o bs e. absurd (cc);
}

-- Eight bytes 10, 11, ...
abbrev pub small_disk : Disk
small_disk = record { bytes = λ k. k + 10; len = 8 }
