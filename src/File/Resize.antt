-- ===== src/File/Resize.antt =====
-- `act_SET_FILE_SIZE` of src/find.c.
pub mod Laws
use anfs.Base.{
  ℕ, zero, suc, Bool, true, false, ◌&&◌, not, Option, none, some, List, [], ◌∷◌, ltb, if◌then◌else◌,
  ℤ, pos, negsuc, wrap32,
}
use anfs.Nfssupp.{
  IoErr, error_file_not_object, error_object_in_use, error_required_arg_missing, error_seek_error,
}
use anfs.Fh.{Mode, new_pos}
use anfs.Attrs.{NfsFh, Fattr, Cache, attrs_update}
use anfs.Locks.{Elock, lock_num_locks_from_key}
use anfs.Lock.{Found, entry, missing}
use anfs.Wbuf.State.{State, Run, ok, err, fault}
use anfs.Wbuf.Flush.{Writer, flush_cache}
use anfs.File.{OpenFile, Answer, answer, no_handle, crash, set_state, has_buffered_w_data}

-- `nfs_SetSize`, and what `attrs_Update` needs: an allocation, the memory of a table, and the time
pub record Sizes (W : Type 0) : Type 0 where
  pub nfs_set_size : W → NfsFh → (size : ℕ) → W × Found Fattr
  pub alloc_vec : W → Option ℕ
  pub table_memory : W → Bool
  pub fthash_now : W → ℕ

module _ {W : Type 0} (calls : Sizes W) (fh : NfsFh) where
  -- The handle with the length that the server gives. The length is the bits of a `LONG`, a number below
  -- 2 ^ 32, and the comparison is one of unsigned numbers, as `size` is one.
  unfoldable pub with_size : OpenFile W → (size : ℕ) → OpenFile W
  with_size f size = record f {
    efh = record (f.efh) {
      efh_file_pos = if ltb size f.efh.efh_file_pos then size else f.efh.efh_file_pos;
      efh_file_len = size;
    };
  }

  -- The result of `nfs_SetSize`, as a `LONG`, which is negative from 2 ^ 31 on; `SetRes1` leaves `g_Res2`, which is `g_res2`.
  unfoldable pub set_result :
      (g_res2 : Option IoErr) → OpenFile W → Cache → W × Found Fattr → Answer W × Cache
  unfolding with_size attrs_update
  set_result g_res2 f cache (w, missing e) =
      (answer (negsuc 0) (some e) [] (set_state f (record (f.state) { world = w })), cache)
  set_result g_res2 f cache (w, entry fattr) =
      let f' = with_size (set_state f (record (f.state) { world = w })) fattr.size in
      let updated =
        attrs_update (calls.alloc_vec w) (calls.table_memory w) (calls.fthash_now w) fh fattr
          cache in
      (answer (wrap32 (pos fattr.size)) g_res2 [] f', updated.1)

  -- The tests of `NewSize`
  unfoldable pub to_size :
      (g_res2 : Option IoErr) → (new_size : ℤ) → OpenFile W → Cache → Answer W × Cache
  unfolding set_result
  to_size g_res2 (negsuc zero) f cache =
      (answer (negsuc 0) (some error_required_arg_missing) [] f, cache)
  to_size g_res2 (negsuc (suc k)) f cache = (answer (negsuc 0) (some error_seek_error) [] f, cache)
  to_size g_res2 (pos n) f cache = set_result g_res2 f cache (calls.nfs_set_size f.state.world fh n)

  module _ (locks : List Elock) (key : ℕ) (offset : ℤ) (mode : Mode) where
    -- What follows the flush; `abort` is `Abort`.
    unfoldable pub after_sync :
        (g_res2 : Option IoErr) (abort : Bool) → OpenFile W → Cache → Answer W × Cache
    unfolding to_size new_pos lock_num_locks_from_key
    after_sync g_res2 abort f cache =
        if not abort && ltb 1 (lock_num_locks_from_key locks key)
        then (answer (negsuc 0) (some error_object_in_use) [] f, cache)
        else to_size g_res2 (new_pos f.efh mode offset) f cache

    -- The result of the flush in front
    unfoldable pub synced :
        (g_res2 : Option IoErr) → OpenFile W → Cache → Run W (Unit {0}) → Answer W × Cache
    unfolding after_sync
    synced g_res2 f cache (ok _ s) = after_sync g_res2 false (set_state f s) cache
    synced g_res2 f cache (err e s) = after_sync (some e) true (set_state f s) cache
    synced g_res2 f cache fault = (crash, cache)

    -- `act_SET_FILE_SIZE`; the key is that of the lock of the handle, `fh` its file.
    unfoldable pub act_set_file_size :
        Writer W → (g_res2 : Option IoErr) → Option (OpenFile W) → Cache → Answer W × Cache
    unfolding synced after_sync flush_cache
    act_set_file_size writer g_res2 none cache =
        (no_handle (negsuc 0) (some error_file_not_object), cache)
    act_set_file_size writer g_res2 (some f) cache =
        if has_buffered_w_data f
        then synced g_res2 f cache (flush_cache writer f.state)
        else after_sync g_res2 false f cache
