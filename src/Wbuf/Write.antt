-- ===== src/Wbuf/Write.antt =====
-- `WBufSeekAndPrepare`, `WBufWrite`, `wc_WriteCache` and `FlushCacheAndWrite` of src/wbuf.c.
-- Positions are not negative; -1 is `err`, 0 for "no mem" is `none`.
pub mod InBuffer
use anfs.Base.{
  ℕ, zero, suc, ◌+◌, ◌-◌, ◌*◌, ◌/◌, min, Bool, true, false, not, ◌&&◌, ◌||◌, Option, none, some,
  List, [], ◌∷◌, length, take, drop, Bytes, overlay, ◌==◌, ltb, leb, if◌then◌else◌,
}
use anfs.Nfs.MWrite.{Writing}
use anfs.Nfssupp.{IoErr}
use anfs.Wbuf.Info.{Wbufhdrinfo, mbufsize, wbufhdrinfosize, is_incl_between, update_info}
use anfs.Wbuf.State.{
  Wbufhdr, Wbufcluster, State, Run, ok, err, fault, M, pure, get, put, ◌>>=◌, ◌>>◌, obtain_wbuf,
  wbuf_add_head, wbuf_insert, align_file_offs, wbuf_cache_full, wbufs_avail,
}
use anfs.Wbuf.Flush.{Writer, flush_cache}

-- The header at an address, and the one behind it
pub find_buf : ℕ → List Wbufhdr → Option (Wbufhdr × Option Wbufhdr)
find_buf a [] = none
find_buf a (b ∷ []) = if b.addr == a then some (b, none) else none
find_buf a (b ∷ next ∷ rest) = if b.addr == a then some (b, some next) else find_buf a (next ∷ rest)

-- A change of the header at an address
pub change_buf : ℕ → (Wbufhdr → Wbufhdr) → List Wbufhdr → List Wbufhdr
change_buf a f [] = []
change_buf a f (b ∷ rest) = if b.addr == a then f b ∷ rest else b ∷ change_buf a f rest

pub last_buf : Wbufhdr → List Wbufhdr → Wbufhdr
last_buf b [] = b
last_buf b (next ∷ rest) = last_buf next rest

-- `HasBufferedWData`
abbrev pub has_buffered_data : {W : Type 0} → State W → Bool
has_buffered_data s = not (s.wbc.wbufs_used == 0)

-- The search of `WBufSeekAndPrepare` for a buffer in the middle: the first that ends at `new_pos`
-- or behind it, or the one before where that begins behind `new_pos`. `none` is no buffer.
pub search_pos : (new_pos : ℕ) → Option Wbufhdr → List Wbufhdr → Option Wbufhdr
search_pos new_pos prev [] = none
search_pos new_pos prev (wbh ∷ rest) =
    let further = search_pos new_pos (some wbh) rest in
    if ltb (wbh.wbh_file_offs + mbufsize) new_pos
    then further
    else (if ltb new_pos wbh.wbh_file_offs then prev else some wbh)

-- The state after `buf` is copied to `offs` in the buffer `wbh`
unfoldable pub copied : {W : Type 0} → Wbufhdr → (offs : ℕ) → List ℕ → State W → State W
copied wbh offs buf s = record s {
  mem = λ d. if d == wbh.wbh_data then overlay offs buf (s.mem wbh.wbh_data) else s.mem d;
  wbc = record (s.wbc) {
    file_pos = s.wbc.file_pos + length buf;
    bufs =
        change_buf wbh.addr (λ b. record b { wbh_info = update_info b.wbh_info offs (length buf) })
          s.wbc.bufs;
  };
}

module _ {W : Type 0} (writer : Writer W) where
  abbrev flush : M W (Unit {0})
  flush = flush_cache writer

  -- A new buffer; `true` says that the cache was flushed on the way.
  pub new_buf : M W (Option Wbufhdr × Bool)
  new_buf = do
    s ← get
    let full = wbuf_cache_full s.wbc
    if full then flush else pure tt
    got ← obtain_wbuf
    t ← get
    elim got [
      | some wbh ↦ pure (some wbh, full)
      | none ↦
          if has_buffered_data t
          then (do flush; again ← obtain_wbuf; pure (again, true))
          else pure (none, full)
    ]

  -- The new buffer gets its place in the file, and becomes `wbc_PosData`.
  abbrev placed : ℕ → Wbufhdr → Wbufhdr
  placed pos wbh = record wbh { wbh_file_offs = align_file_offs pos; wbh_info = [] }

  -- The ADDHEAD part of `WBufSeekAndPrepare`; `false` is "no mem".
  pub prepare_head : (new_pos : ℕ) → M W Bool
  prepare_head new_pos = do
    (got, flushed) ← new_buf
    s ← get
    elim got [
      | none ↦ pure false
      | some wbh ↦
          put (record s {
            wbc = record (wbuf_add_head s.wbc (placed new_pos wbh)) { pos_data = some wbh.addr };
          })
          >> pure true
    ]

  abbrev at_buf : Wbufhdr → M W Bool
  at_buf wbh s = ok true (record s { wbc = record (s.wbc) { pos_data = some wbh.addr } })

  -- The choice of the buffer in `WBufSeekAndPrepare`
  pub seek : (new_pos : ℕ) → List Wbufhdr → M W Bool
  seek new_pos [] = prepare_head new_pos
  seek new_pos (b ∷ rest) =
      if ltb new_pos b.wbh_file_offs
      then prepare_head new_pos
      else if leb ((last_buf b rest).wbh_file_offs + mbufsize) new_pos
      then at_buf (last_buf b rest)
      else elim (search_pos new_pos none (b ∷ rest)) [ none ↦ (λ s. fault) | some wbh ↦ at_buf wbh ]

  -- `WBufSeekAndPrepare`; `false` is "no mem".
  unfoldable pub seek_and_prepare : (new_pos : ℕ) → M W Bool
  unfolding new_buf prepare_head search_pos seek
  seek_and_prepare new_pos = do
    s ← get
    put (record s { wbc = record (s.wbc) { file_pos = new_pos } })
    seek new_pos s.wbc.bufs

  -- The end of `WBufWrite`: a flush where the cells of the buffer at `wbc_PosData` run out
  pub flush_if_full : ℕ → M W (Option ℕ)
  flush_if_full cnt s = elim s.wbc.pos_data [
    | none ↦ fault
    | some a ↦ elim (find_buf a s.wbc.bufs) [
      | none ↦ fault
      | some (wbh, next) ↦
          if leb wbufhdrinfosize (length wbh.wbh_info + 1)
          then (flush >> pure (some cnt)) s
          else ok (some cnt) s
    ]
  ]

  -- `WBufWrite` once the buffer is chosen: the bytes that fit are copied.
  pub fill : (wbh : Wbufhdr) → List ℕ → M W (Option ℕ)
  unfolding flush_if_full copied change_buf
  fill wbh buf s =
      let offs = s.wbc.file_pos - wbh.wbh_file_offs in
      let cnt = min (mbufsize - offs) (length buf) in
      if ltb s.wbc.file_pos wbh.wbh_file_offs || leb mbufsize offs
      then fault
      else flush_if_full cnt (copied wbh offs (take cnt buf) s)

  -- `WBufWrite` where a buffer must be added behind `wbh`
  pub write_new : (wbh : Wbufhdr) → List ℕ → M W (Option ℕ)
  unfolding fill new_buf
  write_new wbh buf = do
    (got, flushed) ← new_buf
    s ← get
    elim got [
      | none ↦ pure none
      | some new ↦ do
        let new' = placed s.wbc.file_pos new
        put (record s {
          wbc = record (wbuf_insert s.wbc (if flushed then none else some wbh.addr) new') {
            pos_data = some new.addr;
          };
        })
        fill new' buf
    ]

  -- `WBufWrite` by the buffer at `wbc_PosData` and the one behind it
  pub write_from : Wbufhdr → Option Wbufhdr → List ℕ → M W (Option ℕ)
  unfolding write_new fill is_incl_between
  write_from wbh next buf s =
      if leb (wbh.wbh_file_offs + mbufsize) s.wbc.file_pos
      then (elim next [
        | none ↦ write_new wbh buf s
        | some n ↦
            if is_incl_between s.wbc.file_pos n.wbh_file_offs (n.wbh_file_offs + mbufsize - 1)
            then fill n buf s
            else write_new wbh buf s
      ])
      else fill wbh buf s

  -- `WBufWrite`: the number of bytes written, `none` for "no mem"
  unfoldable pub wbuf_write : List ℕ → M W (Option ℕ)
  unfolding find_buf write_from
  wbuf_write buf s = elim s.wbc.pos_data [
    | none ↦ fault
    | some a ↦ elim (find_buf a s.wbc.bufs) [
      | none ↦ fault
      | some (wbh, next) ↦ write_from wbh next buf s
    ]
  ]
