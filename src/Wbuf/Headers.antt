-- ===== src/Wbuf/Headers.antt =====
-- The pool of headers, and the cluster of a file handle: `wc_AllocWBufs`, `wc_FreeWBufs`,
-- `wc_CreateCache` and `wc_DeleteCache` of src/wbuf.c. `AllocVec` is a parameter, by the value that the
-- loop counter has when it is called; what `FreeVec` gives back is part of the result.
pub mod Laws
use anfs.Base.{ℕ, zero, suc, ◌+◌, ◌-◌, Bool, true, false, Option, none, some, List, [], ◌∷◌}
use anfs.Wbuf.State.{Wbufcluster}

-- `g_NumWBufHdrs`, `g_NumFreeWBufHdrs` and the list at `g_FreeWBufHdr`
pub record Hdrs : Type 0 where
  pub num_wbuf_hdrs : ℕ
  pub num_free_wbuf_hdrs : ℕ
  pub free_wbuf_hdr : List ℕ

-- The loop of `wc_FreeWBufs`: the headers that are freed, in order
pub free_loop : List ℕ → List ℕ
free_loop [] = []
free_loop (wbh ∷ rest) = wbh ∷ free_loop rest

-- `wc_FreeWBufs`, with the headers that are freed
unfoldable pub free_wbufs : Hdrs → Hdrs × List ℕ
unfolding free_loop
free_wbufs g = (
  record { num_wbuf_hdrs = 0; num_free_wbuf_hdrs = 0; free_wbuf_hdr = [] },
  free_loop g.free_wbuf_hdr,
)

-- TRUE, or FALSE with the headers that were freed again
pub data Allocated : Type 0 where
  all_of_them : Hdrs → Allocated
  no_memory : Hdrs × List ℕ → Allocated

-- The loop of `wc_AllocWBufs` with `i` rounds left
pub alloc_loop : (alloc_vec : ℕ → Option ℕ) → (num_bufs i : ℕ) → List ℕ → Allocated
unfolding free_wbufs
alloc_loop alloc_vec num_bufs zero wbh_head =
    all_of_them
      (record { num_wbuf_hdrs = num_bufs; num_free_wbuf_hdrs = num_bufs; free_wbuf_hdr = wbh_head })
alloc_loop alloc_vec num_bufs (suc i) wbh_head = elim (alloc_vec i) [
  | none ↦ no_memory (
      free_wbufs (record {
        num_wbuf_hdrs = num_bufs - (i + 1);
        num_free_wbuf_hdrs = num_bufs - (i + 1);
        free_wbuf_hdr = wbh_head;
      }))
  | some wbh ↦ alloc_loop alloc_vec num_bufs i (wbh ∷ wbh_head)
]

-- `wc_AllocWBufs`
unfoldable pub alloc_wbufs : (alloc_vec : ℕ → Option ℕ) → ℕ → Allocated
unfolding alloc_loop
alloc_wbufs alloc_vec num_bufs = alloc_loop alloc_vec num_bufs num_bufs []

-- `wc_CreateCache`; `memory` says whether the cluster can be allocated. `none` is NULL.
unfoldable pub create_cache : (memory : Bool) → (max_bufs : ℕ) → Option Wbufcluster
create_cache true max_bufs =
    some (record { wbufs_max = max_bufs; wbufs_used = 0; bufs = []; pos_data = none; file_pos = 0 })
create_cache false max_bufs = none

-- `wc_DeleteCache`; a cluster with buffers is only reported.
unfoldable pub delete_cache : Option Wbufcluster → Option Wbufcluster
delete_cache wbuf = none
