-- ===== src/Nfs/Calls.antt =====
-- The remote procedures of nfs.c, as parameters, and what a server promises.
use anfs.Base.{ℕ, ◌≤◌, ◌<◌, ◌≡◌, ◌⊎◌, List, [], length, Bytes, overlay, slice}
use anfs.Nfssupp.{Nfsstat}

-- `readres *`: NULL, a status other than NFS_OK, or the bytes and the size of the file
pub data Readres : Type 0 where
  no_reply : Readres
  refused : Nfsstat → Readres
  reply : List ℕ → ℕ → Readres

-- `attrstat *`: NULL, a status other than NFS_OK, or the size of the file
pub data Attrstat : Type 0 where
  no_reply : Attrstat
  refused : Nfsstat → Attrstat
  attributes : ℕ → Attrstat

-- The calls on one file. `clnt_stat` is what `clnt_geterr` reports.
pub record Rpc (W : Type 0) : Type 0 where
  pub nfsproc_read : W → (offset count : ℕ) → W × Readres
  pub nfsproc_write : W → (offset : ℕ) → List ℕ → W × Attrstat
  pub clnt_stat : W → ℕ

-- A server that keeps the contents of the file: a read returns bytes of the file, no more than
-- asked for, none only at the end; a write that succeeds stores the bytes, one that is refused
-- changes nothing, and one without an answer was executed or not.
pub record Server {W : Type 0} (rpc : Rpc W) : Type 0 where
  pub contents : W → Bytes
  pub size : W → ℕ
  pub read_keeps :
      (w : W) (o c : ℕ)
      → (contents (rpc.nfsproc_read w o c).0 ≡ contents w)
        × (size (rpc.nfsproc_read w o c).0 ≡ size w)
  pub read_bytes :
      (w : W) (o c : ℕ) (bs : List ℕ) (n : ℕ)
      → (rpc.nfsproc_read w o c).1 ≡ Readres.reply bs n
      → (bs ≡ slice (contents w) o (length bs)) × (length bs ≤ c) × (n ≡ size w)
  pub read_end :
      (w : W) (o c n : ℕ) → 0 < c → (rpc.nfsproc_read w o c).1 ≡ Readres.reply [] n → size w ≤ o
  pub write_stores :
      (w : W) (o : ℕ) (bs : List ℕ) (n k : ℕ)
      → (rpc.nfsproc_write w o bs).1 ≡ Attrstat.attributes n
      → contents (rpc.nfsproc_write w o bs).0 k ≡ overlay o bs (contents w) k
  pub write_refused :
      (w : W) (o : ℕ) (bs : List ℕ) (s : Nfsstat)
      → (rpc.nfsproc_write w o bs).1 ≡ Attrstat.refused s
      → contents (rpc.nfsproc_write w o bs).0 ≡ contents w
  pub write_lost :
      (w : W) (o : ℕ) (bs : List ℕ)
      → (rpc.nfsproc_write w o bs).1 ≡ Attrstat.no_reply
      → (contents (rpc.nfsproc_write w o bs).0 ≡ contents w)
        ⊎ ((k : ℕ) → contents (rpc.nfsproc_write w o bs).0 k ≡ overlay o bs (contents w) k)
