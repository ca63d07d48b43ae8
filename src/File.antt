-- ===== src/File.antt =====
-- An open file: `act_READ` of src/read.c and `act_WRITE` of src/write.c, which compose the write cache
-- and the read-ahead buffer of the handle. The children have `act_END` and `act_SET_FILE_SIZE` of
-- src/find.c. The handle that `fh_Lookup` finds is an argument, or `none`.
pub mod Reads
pub mod Writes
pub mod Close
pub mod Resize
pub mod Tests
use anfs.Base.{
  ℕ, zero, suc, ◌+◌, Bool, true, false, ◌&&◌, ◌||◌, not, Option, none, some, List, [], ◌∷◌, length,
  ◌==◌, if◌then◌else◌, ℤ, pos, negsuc,
}
use anfs.Nfssupp.{IoErr, error_file_not_object}
use anfs.Nfs.Calls.{Rpc}
use anfs.Fh.{Efh}
use anfs.Wbuf.State.{State, Run, ok, err, fault}
use anfs.Wbuf.Flush.{Writer, flush_cache}
use anfs.Wbuf.Write.{has_buffered_data}
use anfs.Wbuf.WriteCache.{write_cache}
use anfs.Rbuf
use anfs.Rbuf.{Rbufhdr, RState, release_buffered, read_buf}

-- `efh_Mode`
pub data FileMode : Type 0 where
  mode_oldfile mode_readwrite mode_newfile other_mode : FileMode

-- An open handle with its buffers. `state` has the pools, the server and the cluster, which counts
-- only if `has_wbuf`; `efh_res2` is the error of a cached write that is still to be reported.
pub record OpenFile (W : Type 0) : Type 0 where
  pub efh : Efh
  pub state : State W
  pub has_wbuf : Bool
  pub rbuf : Option Rbufhdr
  pub efh_mode : FileMode
  pub efh_res2 : Option IoErr

-- The modes in which a handle may be read, and in which it may be written
unfoldable pub may_read : FileMode → Bool
may_read mode_oldfile = true
may_read mode_readwrite = true
may_read m = false

unfoldable pub may_write : FileMode → Bool
may_write other_mode = false
may_write m = true

-- `g_Res1` and `g_Res2`, with the bytes that stand in `Buf`; or no handle was found, which leaves all
-- as it is; or a pointer is used that is not valid.
pub data Answer (W : Type 0) : Type 0 where
  answer : (res1 : ℤ) → (res2 : Option IoErr) → List ℕ → OpenFile W → Answer W
  no_handle : (res1 : ℤ) → (res2 : Option IoErr) → Answer W
  crash : Answer W

module _ {W : Type 0} where
  -- `HasBufferedWData`
  abbrev pub has_buffered_w_data : OpenFile W → Bool
  has_buffered_w_data f = f.has_wbuf && has_buffered_data f.state

  abbrev pub set_state : OpenFile W → State W → OpenFile W
  set_state f s = record f { state = s }

  -- The state that the read-ahead buffer works on
  abbrev pub to_r_state : OpenFile W → RState W
  to_r_state f = record {
    world = f.state.world;
    mbufs = f.state.mbufs;
    mem = f.state.mem;
    rbuf = f.rbuf;
    file_pos = f.efh.efh_file_pos;
    file_len = f.efh.efh_file_len;
  }

  abbrev pub from_r_state : OpenFile W → RState W → OpenFile W
  from_r_state f t = record f {
    efh = record (f.efh) { efh_file_pos = t.file_pos; efh_file_len = t.file_len };
    state = record (f.state) { world = t.world; mbufs = t.mbufs; mem = t.mem };
    rbuf = t.rbuf;
  }

  -- The result of `rb_ReadBuf`
  unfoldable pub read_result : OpenFile W → Rbuf.Run W → Answer W
  read_result f (Rbuf.Run.done bs t) = answer (pos (length bs)) none bs (from_r_state f t)
  read_result f (Rbuf.Run.failed e t) = answer (negsuc 0) (some e) [] (from_r_state f t)
  read_result f Rbuf.Run.fault = crash

  module _ (writer : Writer W) (rpc : Rpc W) (max_read_size : ℕ) (g_res2 : Option IoErr) where
    -- The read of `num` bytes, which is not 0, once no write is buffered
    unfoldable pub read_some : (num : ℕ) → OpenFile W → Answer W
    unfolding read_result read_buf
    read_some num f =
        if not (f.efh.efh_file_len == 0) && f.efh.efh_file_len == f.efh.efh_file_pos
        then answer (pos 0) none [] f
        else read_result f (read_buf rpc max_read_size num (to_r_state f))

    unfoldable pub read_num : ℤ → OpenFile W → Answer W
    unfolding read_some
    read_num (negsuc k) f = answer (negsuc 0) g_res2 [] f
    read_num (pos zero) f = answer (pos 0) none [] f
    read_num (pos (suc n)) f = read_some (suc n) f

    -- What follows the flush in front of a read; -1 takes the place of `Num` where it fails.
    unfoldable pub read_flushed : ℤ → OpenFile W → Run W (Unit {0}) → Answer W
    unfolding read_num
    read_flushed num f (ok _ s) = read_num num (set_state f s)
    read_flushed num f (err e s) = answer (negsuc 0) (some e) [] (set_state f s)
    read_flushed num f fault = crash

    -- `act_READ` on the handle; `g_res2` is `g_Res2` before.
    unfoldable pub read_file : ℤ → OpenFile W → Answer W
    unfolding read_flushed read_num flush_cache may_read
    read_file num f = elim f.efh_res2 [
      | some e ↦ answer (pos 0) (some e) [] (record f { efh_res2 = none })
      | none ↦
          if not (may_read f.efh_mode)
          then answer (pos 0) (some error_file_not_object) [] f
          else (if has_buffered_w_data f
              then read_flushed num f (flush_cache writer f.state)
              else read_num num f)
    ]

    -- `act_READ`
    unfoldable pub act_read : ℤ → Option (OpenFile W) → Answer W
    unfolding read_file
    act_read num none = no_handle (pos 0) (some error_file_not_object)
    act_read num (some f) = read_file num f

  -- `rb_ReleaseRBufData` where there is data
  unfoldable pub release_read : OpenFile W → OpenFile W
  unfolding release_buffered
  release_read f = from_r_state f (release_buffered (to_r_state f))

  -- The result of `wc_WriteCache`
  unfoldable pub write_result : OpenFile W → Run W (ℕ × ℕ) → Answer W
  write_result f (ok (num, len) s) = answer (pos num) none [] (record (set_state f s) {
    efh = record (f.efh) { efh_file_pos = f.efh.efh_file_pos + num; efh_file_len = len };
  })
  write_result f (err e s) = answer (negsuc 0) (some e) [] (set_state f s)
  write_result f fault = crash

  -- The result of a write of no bytes, after the flush
  unfoldable pub sync_result : OpenFile W → Run W (Unit {0}) → Answer W
  sync_result f (ok _ s) = answer (pos 0) none [] (set_state f s)
  sync_result f (err e s) = answer (negsuc 0) (some e) [] (set_state f s)
  sync_result f fault = crash

  module _ (writer : Writer W) (write_buffer_limit : ℕ) where
    -- The write of the bytes of `Buf`; a write of none of them flushes the cache.
    unfoldable pub write_bytes : List ℕ → OpenFile W → Answer W
    unfolding write_result write_cache sync_result flush_cache
    write_bytes [] f =
        if has_buffered_w_data f
        then sync_result f (flush_cache writer f.state)
        else answer (pos 0) none [] f
    write_bytes (b ∷ bs) f = write_result f (
        write_cache writer f.has_wbuf write_buffer_limit f.efh.efh_file_pos f.efh.efh_file_len
          (b ∷ bs) f.state)

    -- `act_WRITE` on the handle; `buf` has the `Num` bytes, none if `Num` is negative.
    unfoldable pub write_file : (buf : List ℕ) → OpenFile W → Answer W
    unfolding write_bytes release_read may_write
    write_file buf f = elim f.efh_res2 [
      | some e ↦ answer (pos 0) (some e) [] (record f { efh_res2 = none })
      | none ↦
          if not (may_write f.efh_mode)
          then answer (pos 0) (some error_file_not_object) [] f
          else write_bytes buf (release_read f)
    ]

    -- `act_WRITE`
    unfoldable pub act_write : (buf : List ℕ) → Option (OpenFile W) → Answer W
    unfolding write_file
    act_write buf none = no_handle (pos 0) (some error_file_not_object)
    act_write buf (some f) = write_file buf f
