-- ===== src/File/Close.antt =====
-- `act_END` of src/find.c: the end of an open file, which must report the errors of cached writes.
pub mod Laws
use anfs.Base.{ℕ, Bool, true, false, Option, none, some, List, [], ◌∷◌, ◌==◌, if◌then◌else◌}
use anfs.Nfssupp.{IoErr, error_file_not_object}
use anfs.Fh.{Efh, fh_remove}
use anfs.Locks.{Elock, lock_remove}
use anfs.Wbuf.State.{State, Run, ok, err, fault}
use anfs.Wbuf.Flush.{Writer, flush_cache}
use anfs.Wbuf.Write.{has_buffered_data}
use anfs.File.{OpenFile, release_read}

-- After `act_END`: the error in `g_Res2` with DOSFALSE, or `none` for DOSTRUE; the pools and the server
-- are in the state of the file.
pub record Ended (W : Type 0) : Type 0 where
  pub outcome : Option IoErr
  pub file : OpenFile W
  pub fhs : List Efh
  pub locks : List Elock

-- The error of a cached write comes before that of the flush.
unfoldable pub first_error : (buffer_error flush_error : Option IoErr) → Option IoErr
first_error none e = e
first_error (some e) flush_error = some e

module _ {W : Type 0} where
  -- `wc_DeleteCache` after the flush, with the result of the flush; `none` is a pointer that is not valid.
  unfoldable pub end_flushed : OpenFile W → Run W (Unit {0}) → Option (Option IoErr × OpenFile W)
  end_flushed f (ok _ s) = some (none, record f { state = s; has_wbuf = false })
  end_flushed f (err e s) = some (some e, record f { state = s; has_wbuf = false })
  end_flushed f fault = none

  -- The write cache at the end
  unfoldable pub end_wbuf : Writer W → OpenFile W → Option (Option IoErr × OpenFile W)
  unfolding end_flushed flush_cache
  end_wbuf writer f =
      if f.has_wbuf
      then (if has_buffered_data f.state
          then end_flushed f (flush_cache writer f.state)
          else some (none, record f { has_wbuf = false }))
      else some (none, f)

  -- The read-ahead buffer at the end: `rb_ReleaseRBufData` and `rb_DeleteRBuf`
  unfoldable pub end_rbuf : OpenFile W → OpenFile W
  unfolding release_read
  end_rbuf f = record (release_read f) { rbuf = none }

  -- The handle and its lock leave their lists; `0` is NULL.
  unfoldable pub end_lists : List Efh → List Elock → OpenFile W → Option IoErr → Ended W
  unfolding end_rbuf first_error fh_remove lock_remove
  end_lists fhs locks f e = record {
    outcome = first_error f.efh_res2 e;
    file = record (end_rbuf f) { efh_res2 = none };
    fhs = (fh_remove fhs f.efh.addr).1;
    locks = if f.efh.efh_elock == 0 then locks else (lock_remove locks f.efh.efh_elock).1;
  }

  -- `act_END` on the handle
  unfoldable pub end_file : Writer W → List Efh → List Elock → OpenFile W → Option (Ended W)
  unfolding end_wbuf end_lists
  end_file writer fhs locks f = elim (end_wbuf writer f) [
    | none ↦ none
    | some (e, f') ↦ some (end_lists fhs locks f' e)
  ]

-- The reply of `act_END`; `lost` is the use of a pointer that is not valid.
pub data Ending (W : Type 0) : Type 0 where
  ended : Ended W → Ending W
  not_open : IoErr → Ending W
  lost : Ending W

-- `act_END`
unfoldable pub act_end :
    {W : Type 0} → Writer W → List Efh → List Elock → Option (OpenFile W) → Ending W
unfolding end_file
act_end writer fhs locks none = not_open error_file_not_object
act_end writer fhs locks (some f) = elim (end_file writer fhs locks f) [
  | none ↦ lost
  | some e ↦ ended e
]
