-- ===== src/Locks/Tests.antt =====
-- Two locks on different objects, and changes of their modes.
use anfs.Base.{◌≡◌, refl, [], ◌∷◌, arith, some}
use anfs.Nfssupp.{error_object_wrong_type, error_object_in_use}
use anfs.Fh.{Efh, fh_lookup}
use anfs.Locks.{
  Access, Elock, ObjType, Result, act_change_mode, change_object, lock_insert, lock_lookup_from_key,
  lock_remove, lock_num_locks_from_key,
}
use anfs.Locks.Exclusive.{AreExclusive, act_change_mode-AreExclusive}

abbrev handle : Efh
handle = record { addr = 1; efh_id = 7; efh_file_pos = 4; efh_file_len = 10; efh_elock = 30 }

abbrev of_handle : Elock
of_handle = record { addr = 30; fl_key = 5; fl_access = Access.shared_lock }

abbrev second : Elock
second = record { addr = 31; fl_key = 5; fl_access = Access.shared_lock }

abbrev elsewhere : Elock
elsewhere = record { addr = 32; fl_key = 6; fl_access = Access.exclusive_lock }

becomes_exclusive :
    act_change_mode
      (handle ∷ [])
      (elsewhere ∷ of_handle ∷ [])
      (ObjType.change_fh 7)
      Access.exclusive_lock
    ≡ (Result.success, elsewhere ∷ record of_handle { fl_access = Access.exclusive_lock } ∷ [])
unfolding act_change_mode fh_lookup
becomes_exclusive = refl

in_use :
    act_change_mode
      (handle ∷ [])
      (second ∷ of_handle ∷ [])
      (ObjType.change_fh 7)
      Access.exclusive_lock
    ≡ (Result.fails error_object_in_use, second ∷ of_handle ∷ [])
unfolding act_change_mode fh_lookup
in_use = refl

taken_off : lock_remove (lock_insert (second ∷ []) of_handle) 31 ≡ (some second, of_handle ∷ [])
unfolding lock_remove lock_insert
taken_off = refl

by_key : lock_lookup_from_key (elsewhere ∷ second ∷ []) 5 ≡ some second
unfolding lock_lookup_from_key
by_key = refl

two_locks-AreExclusive : AreExclusive (elsewhere ∷ of_handle ∷ [])
unfolding lock_num_locks_from_key
two_locks-AreExclusive key = ground arith

act_change_mode-AreExclusive_example :
    AreExclusive
      (act_change_mode
        (handle ∷ [])
        (elsewhere ∷ of_handle ∷ [])
        (ObjType.change_fh 7)
        Access.exclusive_lock).1
act_change_mode-AreExclusive_example =
    act_change_mode-AreExclusive (handle ∷ []) (elsewhere ∷ of_handle ∷ []) (ObjType.change_fh 7)
      Access.exclusive_lock two_locks-AreExclusive

-- The `switch` would change the mode of a lock, but the test in front of it lets no lock pass.
switch_changes_lock :
    change_object (handle ∷ []) (of_handle ∷ []) (ObjType.change_lock 30) Access.exclusive_lock
    ≡ (Result.success, record of_handle { fl_access = Access.exclusive_lock } ∷ [])
unfolding change_object
switch_changes_lock = refl

lock_is_refused :
    act_change_mode (handle ∷ []) (of_handle ∷ []) (ObjType.change_lock 30) Access.exclusive_lock
    ≡ (Result.fails error_object_wrong_type, of_handle ∷ [])
unfolding act_change_mode
lock_is_refused = refl
