-- ===== src/Rbuf/Tests.antt =====
-- Runs of reads on a disk, and the theorem at one of them.
use anfs.Base.{ℕ, ◌+◌, ◌≡◌, refl, none, some, List, [], ◌∷◌, arith, slice, false}
use anfs.Nfs.Disk.{Disk, disk, disk_server, small_disk}
use anfs.Nfs.MRead.{m_read}
use anfs.Mbuf.{obtain_mbuf}
use anfs.Rbuf.{Rbufhdr, RState, Run, create_rbuf, read_buf}
use anfs.Rbuf.Coherent.{ReadsBuf, held}
use anfs.Rbuf.Reads.{read_buf-ReadsBuf}

abbrev header : Rbufhdr
header = record { rbh_file_offs = 0; rbh_data_len = 0; rbh_data = none }

abbrev opened : RState Disk
opened = record {
  world = small_disk;
  mbufs = record { num_mbufs = 2; num_free_mbufs = 2; free_mbufs = 21 ∷ 22 ∷ [] };
  mem = λ a k. 0;
  rbuf = some header;
  file_pos = 2;
  file_len = 8;
}

abbrev bytes_of : Run Disk → List ℕ
bytes_of (Run.done bs t) = bs
bytes_of (Run.failed e t) = []
bytes_of Run.fault = []

-- The first read fills the buffer, and the second takes its bytes from there.
reads_ahead : bytes_of (read_buf disk 512 3 opened) ≡ 12 ∷ 13 ∷ 14 ∷ []
unfolding read_buf obtain_mbuf m_read slice
reads_ahead = refl

-- Without a header a small read behind the start follows the null pointer.
no_header : read_buf disk 512 3 (create_rbuf false opened) ≡ Run.fault
unfolding read_buf create_rbuf
no_header = refl

read_buf-ReadsBuf_example :
    ReadsBuf
      (λ (d : Disk). d.bytes)
      (λ d. d.len)
      small_disk.bytes
      8
      (held (some header) + 2)
      2
      3
      (read_buf disk 512 3 opened)
read_buf-ReadsBuf_example =
    read_buf-ReadsBuf disk disk_server 512 header 3 opened (omega arith) (omega arith) (omega arith)
      refl tt refl
