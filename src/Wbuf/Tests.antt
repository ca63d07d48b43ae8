-- ===== src/Wbuf/Tests.antt =====
-- Runs of the write cache on a disk, and its theorems at concrete states.
use anfs.Base.{ℕ, ◌+◌, ◌*◌, ◌≡◌, refl, zero, suc, Option, none, some, List, [], ◌∷◌, arith, overlay}
use anfs.Mbuf.{Mbufs, obtain_mbuf}
use anfs.Nfs.Disk.{Disk, disk, disk_server, small_disk}
use anfs.Wbuf.Info.{range, update_info}
use anfs.Wbuf.State.{
  Wbufhdr, Wbufcluster, State, Run, ok, err, fault, M, ◌>>◌, obtain_wbuf, wbuf_insert,
  align_file_offs, wbuf_cache_full,
}
use anfs.Wbuf.Headers.{alloc_wbufs}
use anfs.Wbuf.Headers.Laws.{Allocates, alloc_wbufs-Allocates}
use anfs.Wbuf.Flush.{Writer, flush_cache}
use anfs.Wbuf.Flush.Contents.{with_bufs, Flushes, flush_cache-Flushes}
use anfs.Wbuf.Sync.{sync_writer}
use anfs.Wbuf.Write.{copied, wbuf_write}
use anfs.Wbuf.Write.InBuffer.{with_bufs-copied_state}
use anfs.Wbuf.WriteCache.{flush_cache_and_write}
use anfs.Wbuf.WriteCache.Direct.{WritesThrough, flush_cache_and_write-WritesThrough}

abbrev pub writer : Writer Disk
writer = sync_writer disk disk_server 8192 (omega arith)

abbrev pool : Mbufs
pool = record { num_mbufs = 4; num_free_mbufs = 1; free_mbufs = 23 ∷ [] }

-- Three buffers with one dirty byte each at the start, and one that is free
abbrev header : ℕ → Wbufhdr
header i = record {
  addr = 10 + i;
  wbh_file_offs = i * 8192;
  wbh_info = range 0 0 ∷ [];
  wbh_data = 20 + i;
}

abbrev cluster : Wbufcluster
cluster = record {
  wbufs_max = 4;
  wbufs_used = 3;
  bufs = header 0 ∷ header 1 ∷ header 2 ∷ [];
  pos_data = some 10;
  file_pos = 0;
}

abbrev cached : State Disk
cached = record {
  world = small_disk;
  mbufs = pool;
  num_free_wbuf_hdrs = 1;
  free_wbuf_hdr = 13 ∷ [];
  mem = λ a k. a;
  wbc = cluster;
}

flush_cache-Flushes_example : Flushes writer cached.wbc.bufs cached (flush_cache writer cached)
flush_cache-Flushes_example = flush_cache-Flushes writer cached refl (omega arith)

abbrev in_second : State Disk
in_second = record cached { wbc = record cluster { file_pos = 8192 + 5 } }

with_bufs-copied_state_example :
    ((k : ℕ)
      → with_bufs
          (copied (header 1) 5 (1 ∷ 2 ∷ []) in_second).mem
          (copied (header 1) 5 (1 ∷ 2 ∷ []) in_second).wbc.bufs
          small_disk.bytes
          k
        ≡ overlay in_second.wbc.file_pos
            (1 ∷ 2 ∷ [])
            (with_bufs in_second.mem in_second.wbc.bufs small_disk.bytes)
            k)
    × ((copied (header 1) 5 (1 ∷ 2 ∷ []) in_second).wbc.file_pos ≡ in_second.wbc.file_pos + 2)
with_bufs-copied_state_example =
    with_bufs-copied_state in_second (header 0 ∷ []) (header 2 ∷ []) (header 1) 5 0 (1 ∷ 2 ∷ [])
      small_disk.bytes refl (omega arith) (omega arith) (omega arith) refl (omega arith)
      (omega arith)

-- A write fills the second buffer up to its end, and the next one needs a new buffer.
abbrev two_writes : M Disk (Option ℕ)
two_writes = wbuf_write writer (6 ∷ []) >> wbuf_write writer (7 ∷ [])

abbrev offsets : List Wbufhdr → List ℕ
offsets [] = []
offsets (b ∷ bs) = b.wbh_file_offs ∷ offsets bs

abbrev offsets_after : {A : Type 0} → Run Disk A → List ℕ
offsets_after (ok a s) = offsets s.wbc.bufs
offsets_after (err e s) = []
offsets_after fault = []

abbrev at_end : State Disk
at_end = record cached {
  wbc = record cluster { wbufs_used = 2; bufs = header 0 ∷ header 1 ∷ []; file_pos = 8192 + 8191 };
}

-- The new buffer is linked in front of the second one, although it lies behind it.
out_of_order : offsets_after (two_writes at_end) ≡ 0 ∷ 16384 ∷ 8192 ∷ []
unfolding wbuf_cache_full wbuf_write obtain_wbuf obtain_mbuf wbuf_insert align_file_offs update_info
out_of_order = refl

flush_cache_and_write-WritesThrough_example :
    WritesThrough writer
      (with_bufs cached.mem cached.wbc.bufs small_disk.bytes)
      3
      (7 ∷ [])
      (flush_cache_and_write writer 3 (7 ∷ []) cached)
flush_cache_and_write-WritesThrough_example =
    flush_cache_and_write-WritesThrough writer 3 (7 ∷ []) cached (λ e. cc) (omega arith) refl
      (omega arith)

-- An allocator of headers that gives out three
abbrev three_headers : ℕ → Option ℕ
three_headers zero = none
three_headers (suc i) = some (100 + i)

alloc_wbufs-Allocates_example : Allocates three_headers 3 (alloc_wbufs three_headers 3)
alloc_wbufs-Allocates_example = alloc_wbufs-Allocates three_headers 3
