-- ===== src/Filesys/Tests.antt =====
-- Runs of the write protection and of the shares, and the theorems there.
use anfs.Base.{ℕ, ◌≡◌, ◌*◌, refl, arith, some, true, false, List, [], ◌∷◌, Bool}
use anfs.Nfssupp.{error_required_arg_missing}
use anfs.Filesys.{dostrue, dosfalse, act_write_protect, distribute_buffers}
use anfs.Filesys.Protect.{requests, act_write_protect-held}
use anfs.Filesys.Share.{SharesOut, distribute_buffers-SharesOut}

-- A lock and an unlock with other keys
abbrev others : List (Bool × ℕ)
others = (true, 8) ∷ (false, 9) ∷ []

wrong_key :
    act_write_protect false 9 (record { is_write_protected = true; lock_key = 7 })
    ≡ (dosfalse error_required_arg_missing, record { is_write_protected = true; lock_key = 7 })
unfolding act_write_protect
wrong_key = refl

-- 300 buffers with the default timeouts
shares : distribute_buffers false false 300 ≡ some (record { mbufs = 12; attrs = 233; dirs = 233 })
unfolding distribute_buffers
shares = refl

act_write_protect-held_example :
    (requests others (record { is_write_protected = true; lock_key = 7 })
      ≡ record { is_write_protected = true; lock_key = 7 })
    × (act_write_protect false 7
          (requests others (record { is_write_protected = true; lock_key = 7 }))
        ≡ (dostrue, record { is_write_protected = false; lock_key = 7 }))
act_write_protect-held_example = act_write_protect-held 7 others refl

distribute_buffers-SharesOut_example : SharesOut (300 * 512) (distribute_buffers false false 300)
distribute_buffers-SharesOut_example = distribute_buffers-SharesOut false false 300 (omega arith)
