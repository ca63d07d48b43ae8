-- ===== src/File/Tests.antt =====
-- Runs of the actions of an open file on a disk, and their theorems at concrete files.
use anfs.Base.{ℕ, ◌+◌, ◌≡◌, refl, true, none, some, List, [], ◌∷◌, slice, overlay, arith, pos, inr}
use anfs.Nfssupp.{error_disk_full}
use anfs.Mbuf.{obtain_mbuf, release_mbuf}
use anfs.Nfs.Disk.{Disk, disk, disk_server, small_disk}
use anfs.Nfs.MRead.{m_read}
use anfs.Nfs.MWrite.{m_write}
use anfs.Locks.{Elock, shared_lock}
use anfs.Lock.{entry}
use anfs.Lock.Entries.Tests.{directory}
use anfs.Wbuf.Info.{range}
use anfs.Wbuf.State.{Wbufhdr}
use anfs.Wbuf.Tests.{writer}
use anfs.Rbuf.{Rbufhdr, read_buf}
use anfs.File.{
  OpenFile, FileMode, Answer, answer, no_handle, crash, act_read, act_write, may_read, may_write,
}
use anfs.File.Reads.{IsOpen, Sees, visible, act_read-Sees}
use anfs.File.Writes.{Stores, act_write-Stores}
use anfs.File.Close.{act_end}
use anfs.File.Close.Laws.{Closes, act_end-Closes}
use anfs.File.Resize.{Sizes}

abbrev header : Rbufhdr
header = record { rbh_file_offs = 0; rbh_data_len = 0; rbh_data = none }

-- Bytes 2 and 3 are in the cache.
abbrev buffer : Wbufhdr
buffer = record { addr = 10; wbh_file_offs = 0; wbh_info = range 2 3 ∷ []; wbh_data = 20 }

abbrev open_file : OpenFile Disk
open_file = record {
  efh = record { addr = 1; efh_id = 7; efh_file_pos = 1; efh_file_len = 8; efh_elock = 30 };
  state = record {
    world = small_disk;
    mbufs = record { num_mbufs = 3; num_free_mbufs = 2; free_mbufs = 21 ∷ 22 ∷ [] };
    num_free_wbuf_hdrs = 0;
    free_wbuf_hdr = [];
    mem = λ a k. 90 + k;
    wbc = record {
      wbufs_max = 4;
      wbufs_used = 1;
      bufs = buffer ∷ [];
      pos_data = some 10;
      file_pos = 4;
    };
  };
  has_wbuf = true;
  rbuf = some header;
  efh_mode = FileMode.mode_readwrite;
  efh_res2 = none;
}

open_file-IsOpen : IsOpen (λ (d : Disk). d.bytes) header open_file
open_file-IsOpen = record {
  counted = refl;
  valid = omega arith;
  no_cache = λ h. absurd (ground arith);
  header = refl;
  coherent = tt;
  one_kind = inr refl;
  pool = refl;
}

abbrev bytes_of : Answer Disk → List ℕ
bytes_of (answer r e bs f) = bs
bytes_of (no_handle r e) = []
bytes_of crash = []

-- The read sees the bytes in the cache.
sees_cached :
    bytes_of (act_read writer disk 512 none (pos 4) (some open_file)) ≡ 11 ∷ 92 ∷ 93 ∷ 14 ∷ []
unfolding act_read read_buf obtain_mbuf m_read m_write release_mbuf slice overlay
sees_cached = refl

-- An error of a cached write is reported once.
reports_once :
    act_read writer disk 512 none
      (pos 4)
      (some (record open_file { efh_res2 = some error_disk_full }))
    ≡ answer (pos 0) (some error_disk_full) [] open_file
unfolding act_read
reports_once = refl

act_read-Sees_example :
    Sees disk disk_server 512
      (visible (λ (d : Disk). d.bytes) open_file)
      8
      1
      4
      (act_read writer disk 512 none (pos 4) (some open_file))
unfolding may_read
act_read-Sees_example =
    act_read-Sees disk disk_server 512 writer refl none header 3 open_file (omega arith)
      (omega arith) refl refl open_file-IsOpen

act_write-Stores_example :
    Stores writer
      (visible (λ (d : Disk). d.bytes) open_file)
      1
      (5 ∷ 6 ∷ [])
      (act_write writer 1 (5 ∷ 6 ∷ []) (some open_file))
unfolding may_write
act_write-Stores_example =
    act_write-Stores writer 1 5 (6 ∷ []) header open_file (omega arith) refl refl open_file-IsOpen
      refl

abbrev lock : Elock
lock = record { addr = 30; fl_key = 5; fl_access = shared_lock }

act_end-Closes_example :
    Closes writer open_file (act_end writer (open_file.efh ∷ []) (lock ∷ []) (some open_file))
act_end-Closes_example =
    act_end-Closes writer header (open_file.efh ∷ []) (lock ∷ []) open_file open_file-IsOpen

-- The server takes every size.
abbrev sizes : Sizes Disk
sizes = record {
  nfs_set_size = λ d fh n. (d, entry (record (directory 5) { size = n }));
  alloc_vec = λ d. some 40;
  table_memory = λ d. true;
  fthash_now = λ d. 100;
}
