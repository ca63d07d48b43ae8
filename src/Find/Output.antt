-- ===== src/Find/Output.antt =====
-- The lock that `act_FINDOUTPUT` inserts keeps no other opener out.
use anfs.Base.{ℕ, ◌≡◌, none, some, List, ◌∷◌}
use anfs.Attrs.{NfsFh}
use anfs.Fh.{Efh}
use anfs.Locks.{shared_lock, Elock}
use anfs.Lock.{entry}
use anfs.Lock.Entries.{Dirop}
use anfs.Find.{Files, Opening, Opened, opened, refused, runs_on, check_locks}

-- Where a file was opened, it is one that the server created, a lock on it and a handle with this lock
-- were inserted, and the test of the locks still lets a reader open the file; otherwise no lock and no
-- handle was inserted.
abbrev pub Admits : {W : Type 0} → Files W → List Elock → List Efh → Opened × Opening W → Type 0
Admits {W} files locks fhs (opened id, s) =
    (w : W) × (dir : NfsFh) × (name : List ℕ) × (d : Dirop) × (elock : Elock) × (efh : Efh)
    × ((files.nfs_create w dir name (some 0)).1 ≡ entry d)
    × (elock.fl_key ≡ d.attributes.fileid)
    × (s.locking.locks ≡ elock ∷ locks)
    × (s.fhs ≡ efh ∷ fhs)
    × (efh.efh_id ≡ id)
    × (efh.efh_elock ≡ elock.addr)
    × (check_locks shared_lock s.locking.locks d.attributes.fileid ≡ none)
Admits files locks fhs (refused e, s) = (s.locking.locks ≡ locks) × (s.fhs ≡ fhs)
Admits files locks fhs (runs_on, s) = (s.locking.locks ≡ locks) × (s.fhs ≡ fhs)
