-- ===== src/Fh/Tests.antt =====
-- Seeks in a file of ten bytes.
use anfs.Base.{◌≡◌, refl, some, [], ◌∷◌, pos, negsuc, arith}
use anfs.Fh.{Efh, Mode, Result, fh_insert, fh_lookup, fh_remove, set_file_pos, act_seek, new_pos}
use anfs.Fh.Laws.{Seeks, act_seek-Seeks}

abbrev handle : Efh
handle = record { addr = 1; efh_id = 7; efh_file_pos = 4; efh_file_len = 10; efh_elock = 30 }

abbrev other : Efh
other = record { addr = 2; efh_id = 8; efh_file_pos = 0; efh_file_len = 0; efh_elock = 31 }

-- Three bytes back from the end
from_end :
    act_seek (other ∷ handle ∷ []) 7 (negsuc 2) Mode.offset_end
    ≡ (Result.ok 4, other ∷ record handle { efh_file_pos = 7 } ∷ [])
unfolding act_seek new_pos fh_lookup set_file_pos
from_end = refl

removes : fh_remove (fh_insert (fh_insert [] handle) other) 1 ≡ (some handle, other ∷ [])
unfolding fh_remove fh_insert
removes = refl

act_seek-Seeks_example :
    Seeks
      (other ∷ handle ∷ [])
      7
      handle
      (pos 9)
      (act_seek (other ∷ handle ∷ []) 7 (pos 5) Mode.offset_current)
    × (fh_lookup (set_file_pos (other ∷ handle ∷ []) 7 9) 7
        ≡ some (record handle { efh_file_pos = 9 }))
unfolding fh_lookup
act_seek-Seeks_example =
    act_seek-Seeks (other ∷ handle ∷ []) 7 9 handle (pos 5) Mode.offset_current refl (omega arith)
      (omega arith) (omega arith)
