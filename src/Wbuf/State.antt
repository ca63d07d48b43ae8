-- ===== src/Wbuf/State.antt =====
-- The state that the write cache works on: the pools of `Global_T`, the memory of the buffers, the
-- server, and the cluster of the file handle at hand; and the functions of src/wbuf.c that move
-- headers between the pool and the cluster. A header is named by its address, as is an MBuf.
use anfs.Base.{
  ℕ, ◌+◌, ◌-◌, ◌/◌, ◌*◌, min, Bool, ◌||◌, Option, none, some, List, [], ◌∷◌, ◌++◌, Bytes, ◌==◌, leb,
  if◌then◌else◌,
}
use anfs.Mbuf.{Mbufs, obtain_mbuf, release_mbuf}
use anfs.Nfssupp.{IoErr}
use anfs.Wbuf.Info.{Wbufhdrinfo, mbufsize}

-- `WBUFHDR`; `wbh_data` is the MBuf that holds its bytes.
pub record Wbufhdr : Type 0 where
  pub addr : ℕ
  pub wbh_file_offs : ℕ
  pub wbh_info : List Wbufhdrinfo
  pub wbh_data : ℕ

-- `WBUFCLUSTER`; `bufs` are the headers from `wbc_FirstData` to `wbc_LastData`, and `pos_data` is
-- the address in `wbc_PosData`.
pub record Wbufcluster : Type 0 where
  pub wbufs_max : ℕ
  pub wbufs_used : ℕ
  pub bufs : List Wbufhdr
  pub pos_data : Option ℕ
  pub file_pos : ℕ

pub record State (W : Type 0) : Type 0 where
  pub world : W
  pub mbufs : Mbufs
  pub num_free_wbuf_hdrs : ℕ
  pub free_wbuf_hdr : List ℕ
  pub mem : ℕ → Bytes
  pub wbc : Wbufcluster

-- A function returns, or fails with an error in `*Res2`, or uses a pointer that is not valid.
pub data Run (W A : Type 0) : Type 0 where
  ok : A → State W → Run W A
  err : IoErr → State W → Run W A
  fault : Run W A

abbrev pub M : Type 0 → Type 0 → Type 0
M W A = State W → Run W A

module _ {W : Type 0} where
  abbrev pub pure : {A : Type 0} → A → M W A
  pure a s = ok a s

  abbrev pub and_then : {A B : Type 0} → Run W A → (A → M W B) → Run W B
  and_then (ok a s) k = k a s
  and_then (err e s) k = err e s
  and_then fault k = fault

  infixl 5 ◌>>=◌ ◌>>◌
  abbrev pub ◌>>=◌ : {A B : Type 0} → M W A → (A → M W B) → M W B
  m >>= k = λ s. and_then (m s) k

  abbrev pub ◌>>◌ : {A B : Type 0} → M W A → M W B → M W B
  m >> n = m >>= λ _. n

  abbrev pub get : M W (State W)
  get s = ok s s

  abbrev pub put : State W → M W (Unit {0})
  put t s = ok tt t

  -- `ObtainWBuf`: a header with an MBuf, where both pools have one
  unfoldable pub obtain_wbuf : M W (Option Wbufhdr)
  obtain_wbuf s =
      if s.num_free_wbuf_hdrs == 0 || s.mbufs.num_free_mbufs == 0
      then ok none s
      else (let (pool, mbn) = obtain_mbuf s.mbufs in
          elim mbn [
            | none ↦ fault
            | some data_at ↦ elim s.free_wbuf_hdr [
              | [] ↦ fault
              | wbh ∷ rest ↦
                  ok
                    (some
                      (record { addr = wbh; wbh_file_offs = 0; wbh_info = []; wbh_data = data_at }))
                    (record s {
                      mbufs = pool;
                      num_free_wbuf_hdrs = s.num_free_wbuf_hdrs - 1;
                      free_wbuf_hdr = rest;
                    })
            ]
          ])

  -- `ReleaseWBuf`
  unfoldable pub release_wbuf : Wbufhdr → State W → State W
  release_wbuf wbh s = record s {
    mbufs = release_mbuf s.mbufs (some wbh.wbh_data);
    num_free_wbuf_hdrs = s.num_free_wbuf_hdrs + 1;
    free_wbuf_hdr = wbh.addr ∷ s.free_wbuf_hdr;
  }

-- `WBufAddHead`
unfoldable pub wbuf_add_head : Wbufcluster → Wbufhdr → Wbufcluster
wbuf_add_head wbc wbh = record wbc { wbufs_used = wbc.wbufs_used + 1; bufs = wbh ∷ wbc.bufs }

-- `WBufAddTail`
unfoldable pub wbuf_add_tail : Wbufcluster → Wbufhdr → Wbufcluster
wbuf_add_tail wbc wbh = record wbc { wbufs_used = wbc.wbufs_used + 1; bufs = wbc.bufs ++ wbh ∷ [] }

-- The linking of `WBufInsert`: `wbh` goes behind the header at `old`.
unfoldable pub link_behind : ℕ → Wbufhdr → List Wbufhdr → List Wbufhdr
link_behind old wbh [] = []
link_behind old wbh (b ∷ bufs) =
    if b.addr == old then b ∷ wbh ∷ bufs else b ∷ link_behind old wbh bufs

-- `WBufInsert`
unfoldable pub wbuf_insert : Wbufcluster → Option ℕ → Wbufhdr → Wbufcluster
unfolding link_behind wbuf_add_head
wbuf_insert wbc none wbh = wbuf_add_head wbc wbh
wbuf_insert wbc (some old) wbh = record wbc {
  wbufs_used = wbc.wbufs_used + 1;
  bufs = link_behind old wbh wbc.bufs;
}

-- `WBufAlignFileOffs`
unfoldable pub align_file_offs : ℕ → ℕ
align_file_offs pos = pos / mbufsize * mbufsize

-- `WBufCacheFull`
unfoldable pub wbuf_cache_full : Wbufcluster → Bool
wbuf_cache_full wbc = leb wbc.wbufs_max wbc.wbufs_used

-- `WBufsAvail`
unfoldable pub wbufs_avail : {W : Type 0} → State W → ℕ
wbufs_avail s = min s.mbufs.num_free_mbufs s.num_free_wbuf_hdrs
