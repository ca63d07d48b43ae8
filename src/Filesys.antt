-- ===== src/Filesys.antt =====
-- src/filesys.c: the write protection of the volume, and how the memory for buffers is shared out.
pub mod Protect
pub mod Share
pub mod Tests
use anfs.Base.{
  ℕ, zero, suc, ◌+◌, ◌-◌, ◌*◌, ◌/◌, ◌^◌, Bool, true, false, Option, none, some, ◌&&◌, ◌||◌, not,
  min, max, ◌==◌, ltb, leb, if◌then◌else◌,
}
use anfs.Nfssupp.{IoErr, error_disk_write_protected, error_required_arg_missing}
use anfs.Wbuf.Info.{mbufsize}

-- `g_Flags & GF_IS_WRITE_PROTECTED` and `g_LockKey`
pub record Protection : Type 0 where
  pub is_write_protected : Bool
  pub lock_key : ℕ

-- DOSTRUE, or DOSFALSE with `g_Res2`
pub data Outcome : Type 0 where
  dostrue : Outcome
  dosfalse : IoErr → Outcome

-- `act_WRITE_PROTECT`; `do_lock` says whether the flag is DOSTRUE.
unfoldable pub act_write_protect : (do_lock : Bool) → (key : ℕ) → Protection → Outcome × Protection
act_write_protect true key g =
    if g.is_write_protected
    then (dosfalse error_disk_write_protected, g)
    else (dostrue, record { is_write_protected = true; lock_key = key })
act_write_protect false key g =
    if g.is_write_protected
    then (if not (key == g.lock_key)
        then (dosfalse error_required_arg_missing, g)
        else (dostrue, record g { is_write_protected = false }))
    else (dostrue, g)

-- `ATTRENTRYSIZE` and `DIRENTRYSIZE`
abbrev pub attrentrysize : ℕ
attrentrysize = 128

abbrev pub direntrysize : ℕ
direntrysize = 110

-- `*PMBufs`, `*PAttrs` and `*PDirs`
pub record Shares : Type 0 where
  pub mbufs : ℕ
  pub attrs : ℕ
  pub dirs : ℕ

-- The `while` of `DistributeBuffers`, which ends when `BufMem` is negative
unfoldable pub distribute_rest : (fuel : ℕ) → (buf_mem : ℕ) → Shares → Shares
distribute_rest zero buf_mem s = s
distribute_rest (suc fuel) buf_mem s =
    let s' = record s { attrs = s.attrs + 1; dirs = s.dirs + 1 } in
    let rest = distribute_rest fuel (buf_mem - (attrentrysize + direntrysize)) s' in
    if ltb buf_mem (attrentrysize + direntrysize) then s' else rest

-- The shares by the scheme, up to the maximum for a slow medium
unfoldable pub first_shares : (big_timeout is_slow_medium : Bool) → (buf_mem : ℕ) → Shares
first_shares big_timeout is_slow_medium buf_mem =
    let mbufs = buf_mem / 2 / mbufsize in
    let attrs = buf_mem / 4 / attrentrysize in
    let dirs = buf_mem / 4 / direntrysize in
    record {
      mbufs = if is_slow_medium && ltb 50 (mbufs * mbufsize / 8192) then 50 else mbufs;
      attrs = if not big_timeout && ltb 200 attrs then 200 else attrs;
      dirs = if not big_timeout && ltb 200 dirs then 200 else dirs;
    }

-- The memory that the shares take
abbrev pub used : Shares → ℕ
used s = s.mbufs * mbufsize + s.attrs * attrentrysize + s.dirs * direntrysize

-- What is left goes to the buffers first on a fast line with small timeouts.
unfoldable pub prefer_buffers :
    (big_timeout is_slow_medium : Bool) → (buf_mem : ℕ) → Shares → Shares
prefer_buffers big_timeout is_slow_medium buf_mem s =
    if not big_timeout && not is_slow_medium
    then record s { mbufs = s.mbufs + buf_mem / mbufsize }
    else s

-- `DistributeBuffers` of a number of buffers that is not negative. `none`: `BufMem` does not fit in a
-- `LONG`, and the product has no value in C. `big_timeout` says whether one of the timeouts is at least four times its
-- default.
unfoldable pub distribute_buffers :
    (big_timeout is_slow_medium : Bool) → (num_bufs : ℕ) → Option Shares
unfolding distribute_rest first_shares prefer_buffers
distribute_buffers big_timeout is_slow_medium num_bufs =
    let buf_mem = num_bufs * 512 in
    let s1 = first_shares big_timeout is_slow_medium buf_mem in
    let s2 = prefer_buffers big_timeout is_slow_medium (buf_mem - used s1) s1 in
    let s3 = distribute_rest (buf_mem - used s2 + 1) (buf_mem - used s2) s2 in
    if ltb buf_mem (2 ^ 31)
    then some (record s3 { attrs = max s3.attrs 20; dirs = max s3.dirs 20 })
    else none
