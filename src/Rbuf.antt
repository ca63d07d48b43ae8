-- ===== src/Rbuf.antt =====
-- src/rbuf.c, the read-ahead buffer of a file handle, over `nfs_MRead`. The position and the length
-- of the file handle, `efh_FilePos` and `efh_FileLen`, are fields of the state, and so is its header,
-- `efh_RBuf`, which may be NULL.
pub mod Coherent
pub mod Reads
pub mod Tests
use anfs.Base.{
  ℕ, zero, suc, ◌+◌, ◌-◌, min, Bool, true, false, ◌&&◌, ◌||◌, not, Option, none, some, List, [],
  ◌∷◌, ◌++◌, length, take, Bytes, overlay, slice, ◌==◌, ltb, leb, if◌then◌else◌,
}
use anfs.Nfssupp.{IoErr}
use anfs.Nfs.Calls.{Rpc}
use anfs.Nfs.MRead.{Reading, m_read}
use anfs.Mbuf.{Mbufs, obtain_mbuf, release_mbuf}
use anfs.Wbuf.Info.{mbufsize}

-- `RBUFFERLIMIT`
abbrev pub rbufferlimit : ℕ
rbufferlimit = 2048

-- `RBUFHDR`
pub record Rbufhdr : Type 0 where
  pub rbh_file_offs : ℕ
  pub rbh_data_len : ℕ
  pub rbh_data : Option ℕ

pub record RState (W : Type 0) : Type 0 where
  pub world : W
  pub mbufs : Mbufs
  pub mem : ℕ → Bytes
  pub rbuf : Option Rbufhdr
  pub file_pos : ℕ
  pub file_len : ℕ

-- The bytes that stand in `Buf`, -1 with `*Res2`, or the use of a pointer that is not valid
pub data Run (W : Type 0) : Type 0 where
  done : List ℕ → RState W → Run W
  failed : IoErr → RState W → Run W
  fault : Run W

module _ {W : Type 0} where
  -- `rb_CreateRBuf`; `memory` says whether the header can be allocated.
  unfoldable pub create_rbuf : (memory : Bool) → RState W → RState W
  create_rbuf true s = record s {
    rbuf = some (record { rbh_file_offs = 0; rbh_data_len = 0; rbh_data = none });
  }
  create_rbuf false s = record s { rbuf = none }

  -- `rb_DeleteRBuf`; the data must be released before.
  unfoldable pub delete_rbuf : RState W → RState W
  delete_rbuf s = record s { rbuf = none }

  -- `HasBufferedRData`: the address of the data
  unfoldable pub buffered_r_data : RState W → Option ℕ
  buffered_r_data s = elim s.rbuf [ none ↦ none | some rbh ↦ rbh.rbh_data ]

  -- `rb_ObtainRBufData`, with the address of the MBuf
  unfoldable pub obtain_rbuf_data : Rbufhdr → RState W → Option (ℕ × Rbufhdr × RState W)
  obtain_rbuf_data rbh s =
      let (pool, rbn) = obtain_mbuf s.mbufs in
      elim rbn [
        | none ↦ none
        | some a ↦
            let rbh' = record rbh { rbh_data = some a } in
            some (a, rbh', record s { mbufs = pool; rbuf = some rbh' })
      ]

  -- `rb_ReleaseRBufData` of the data at `a`
  unfoldable pub release_rbuf_data : Rbufhdr → (a : ℕ) → RState W → RState W
  release_rbuf_data rbh a s = record s {
    mbufs = release_mbuf s.mbufs (some a);
    rbuf = some (record rbh { rbh_data = none });
  }

  -- The release where there is data
  unfoldable pub release_buffered : RState W → RState W
  unfolding release_rbuf_data
  release_buffered s = elim s.rbuf [
    | none ↦ s
    | some rbh ↦ elim rbh.rbh_data [ none ↦ s | some a ↦ release_rbuf_data rbh a s ]
  ]

  -- The first part of a read from the buffer at `a`: the bytes that it holds from the position on
  unfoldable pub buffered : Rbufhdr → (a num : ℕ) → RState W → List ℕ
  buffered rbh a num s =
      let end = rbh.rbh_file_offs + rbh.rbh_data_len in
      if leb rbh.rbh_file_offs s.file_pos && ltb s.file_pos end
      then slice (s.mem a) (s.file_pos - rbh.rbh_file_offs) (min num (end - s.file_pos))
      else []

  -- What follows the read of the server into the buffer at `a`. `got` stands in `Buf`, and `pos` is
  -- the position behind it; `left` bytes are wanted. A read that fails may leave bytes in the
  -- buffer, which is released.
  unfoldable pub refilled :
      Rbufhdr → (a : ℕ) → (got : List ℕ) → (pos left : ℕ) → RState W → Reading W → Run W
  unfolding release_rbuf_data
  refilled rbh a got pos left s (Reading.done w [] size) =
      done got (release_rbuf_data rbh a (record s { world = w; file_len = size; file_pos = pos }))
  refilled rbh a got pos left s (Reading.done w (b ∷ bs) size) =
      let l = min (length (b ∷ bs)) left in
      done (got ++ take l (b ∷ bs)) (record s {
        world = w;
        file_len = size;
        file_pos = pos + l;
        rbuf =
            some (record rbh {
              rbh_file_offs = pos;
              rbh_data_len = length (b ∷ bs);
              rbh_data = some a;
            });
        mem = λ d. if d == a then overlay 0 (b ∷ bs) (s.mem a) else s.mem d;
      })
  refilled rbh a got pos left s (Reading.failed w e) =
      failed e (release_rbuf_data rbh a (record s { world = w }))
  refilled rbh a got pos left s Reading.undefined = fault
  refilled rbh a got pos left s Reading.stuck = fault

  -- What follows a read of the server into `Buf`
  unfoldable pub direct : RState W → Reading W → Run W
  direct s (Reading.done w bs size) =
      done bs (record s { world = w; file_len = size; file_pos = s.file_pos + length bs })
  direct s (Reading.failed w e) = failed e (record s { world = w })
  direct s Reading.undefined = fault
  direct s Reading.stuck = fault

  module _ (rpc : Rpc W) (max_read_size : ℕ) where
    -- The read once the buffer at `a` gave the bytes `got`
    unfoldable pub read_on : Rbufhdr → (a : ℕ) → (got : List ℕ) → (num : ℕ) → RState W → Run W
    unfolding refilled
    read_on rbh a got num s =
        let pos = s.file_pos + length got in
        let left = num - length got in
        if left == 0
        then done got (record s { file_pos = pos })
        else refilled rbh a got pos left s (m_read rpc max_read_size s.world pos mbufsize)

    -- The read through the buffer
    unfoldable pub read_through : Rbufhdr → (num : ℕ) → RState W → Run W
    unfolding obtain_rbuf_data read_on buffered
    read_through rbh num s = elim rbh.rbh_data [
      | none ↦ elim (obtain_rbuf_data rbh s) [
        | none ↦ fault
        | some (a, rbh', s') ↦ read_on rbh' a [] num s'
      ]
      | some a ↦ read_on rbh a (buffered rbh a num s) num s
    ]

    -- The read past the buffer
    unfoldable pub read_past : (num : ℕ) → RState W → Run W
    unfolding direct
    read_past num s = direct (release_buffered s) (m_read rpc max_read_size s.world s.file_pos num)

    -- `rb_ReadBuf`
    unfoldable pub read_buf : (num : ℕ) → RState W → Run W
    unfolding read_through read_past
    read_buf num s =
        if leb num rbufferlimit && not (s.file_pos == 0)
        then (elim s.rbuf [
          | none ↦ fault
          | some rbh ↦ elim rbh.rbh_data [
            | some a ↦ read_through rbh num s
            | none ↦
                if ltb 0 s.mbufs.num_free_mbufs then read_through rbh num s else read_past num s
          ]
        ])
        else read_past num s
