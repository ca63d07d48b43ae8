-- ===== src/Nfs/Tests.antt =====
-- Runs of `nfs_MRead` and `nfs_MWrite` on a disk, and their theorems there.
use anfs.Base.{◌≡◌, refl, [], ◌∷◌, arith, slice}
use anfs.Nfs.Disk.{Disk, disk, disk_server, small_disk}
use anfs.Nfs.MRead.{Reading, m_read}
use anfs.Nfs.MRead.Contents.{Reads, m_read-Reads}
use anfs.Nfs.MWrite.{m_write}
use anfs.Nfs.MWrite.Contents.{Writes, m_write-Writes}

-- Seven bytes in calls of at most three
read_seven :
    m_read disk 3 small_disk 0 7 ≡ Reading.done small_disk (10 ∷ 11 ∷ 12 ∷ 13 ∷ 14 ∷ 15 ∷ 16 ∷ []) 8
unfolding m_read slice
read_seven = refl

-- A read over the end stops there.
read_over_end : m_read disk 3 small_disk 6 7 ≡ Reading.done small_disk (16 ∷ 17 ∷ []) 8
unfolding m_read slice
read_over_end = refl

m_read-Reads_example :
    Reads
      (λ (d : Disk). d.bytes)
      (λ d. d.len)
      small_disk.bytes
      small_disk.len
      2
      5
      (m_read disk 3 small_disk 2 5)
m_read-Reads_example = m_read-Reads disk disk_server 3 small_disk 2 5 (omega arith) (omega arith)

m_write-Writes_example :
    Writes
      (λ (d : Disk). d.bytes)
      small_disk.bytes
      2
      (1 ∷ 2 ∷ 3 ∷ [])
      (m_write disk 2 small_disk 2 (1 ∷ 2 ∷ 3 ∷ []))
m_write-Writes_example =
    m_write-Writes disk disk_server 2 small_disk 2 (1 ∷ 2 ∷ 3 ∷ []) (omega arith) (omega arith)
