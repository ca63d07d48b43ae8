-- ===== src/File/Resize/Laws.antt =====
-- What `act_SET_FILE_SIZE` does, and that a flush that fails does not stop it.
use anfs.Base.{
  ℕ, min, ◌≡◌, refl, true, Option, some, List, [], ℤ, pos, negsuc, wrap32, ◌≤◌, ◌<◌, ◌⊎◌,
}
use anfs.Nfssupp.{IoErr, error_object_in_use}
use anfs.Fh.{Efh, Mode, new_pos}
use anfs.Attrs.{NfsFh, Fattr, Cache}
use anfs.Locks.{Elock, lock_num_locks_from_key}
use anfs.Lock.{entry, missing}
use anfs.Wbuf.State.{State, err}
use anfs.Wbuf.Flush.{Writer, flush_cache}
use anfs.File.{OpenFile, Answer, answer, no_handle, crash, set_state, has_buffered_w_data}
use anfs.File.Resize.{Sizes, to_size, synced, act_set_file_size}

module _ {W : Type 0} (calls : Sizes W) (fh : NfsFh) where
  -- The size is changed: the server gave these attributes for the number that was asked for, and is in
  -- the state that it left; their size is the new length, and the result as a `LONG`.
  abbrev pub Changes : Efh → (new_size r : ℤ) → OpenFile W → Type 0
  Changes h new_size r f =
      (k : ℕ) × (w : W) × (fattr : Fattr) × (new_size ≡ pos k)
      × (calls.nfs_set_size w fh k ≡ (f.state.world, entry fattr))
      × (r ≡ wrap32 (pos fattr.size))
      × (f.efh
          ≡ record h { efh_file_pos = min h.efh_file_pos fattr.size; efh_file_len = fattr.size })

  -- Nothing is changed: the new size is negative, or the server refuses it with the error.
  abbrev pub Refuses : (new_size : ℤ) → Option IoErr → OpenFile W → Type 0
  Refuses (negsuc n) e f = Unit {0}
  Refuses (pos k) e f =
      (w : W) × (x : IoErr) × (calls.nfs_set_size w fh k ≡ (f.state.world, missing x))
      × (e ≡ some x)

  -- The outcome of a change of the size of a file with the handle `h`, which must not be `used` by other
  -- locks where the size is changed
  abbrev pub Resizes : (free used : Type 0) → Efh → (new_size : ℤ) → Answer W × Cache → Type 0
  Resizes free used h new_size (answer r e bs f, cache) =
      (f.state.wbc.bufs ≡ [])
      × ((free × Changes h new_size r f)
          ⊎ ((r ≡ negsuc 0)
              × (f.efh ≡ h)
              × ((used × (e ≡ some error_object_in_use)) ⊎ Refuses new_size e f)))
  Resizes free used h new_size (no_handle r e, cache) = ⊥
  Resizes free used h new_size (crash, cache) = ⊥

  module _ (locks : List Elock) (key : ℕ) (offset : ℤ) (mode : Mode) where
    -- The file has no other lock.
    abbrev pub Alone : Type 0
    Alone = lock_num_locks_from_key locks key ≤ 1

    -- There was something to flush, and the flush failed.
    abbrev pub FailsToFlush : Writer W → OpenFile W → Type 0
    FailsToFlush writer f =
        (has_buffered_w_data f ≡ true)
        × ((e : IoErr) × (s : State W) × (flush_cache writer f.state ≡ err e s))

    abbrev pub ResizesFile : Writer W → OpenFile W → Answer W × Cache → Type 0
    ResizesFile writer f =
        Resizes (Alone ⊎ FailsToFlush writer f) (1 < lock_num_locks_from_key locks key) f.efh
          (new_pos f.efh mode offset)

    -- Where the flush in front of a change of the size fails, the size is changed all the same, also
    -- if there are other locks on the file, and the result is that of the change.
    act_set_file_size_failed_flush :
        (writer : Writer W) (g_res2 : Option IoErr) (f : OpenFile W) (cache : Cache) (e : IoErr)
        (s : State W)
        → has_buffered_w_data f ≡ true
        → flush_cache writer f.state ≡ err e s
        → act_set_file_size calls fh locks key offset mode writer g_res2 (some f) cache
          ≡ to_size calls fh (some e) (new_pos f.efh mode offset) (set_state f s) cache
    unfolding act_set_file_size
    act_set_file_size_failed_flush writer g_res2 f cache e s dirty failed =
        rw (dirty, failed, act_set_file_size, synced) refl
