-- ===== src/Mbuf.antt =====
-- src/mbuf.c: the pool of memory buffers of MBUFSIZE bytes that read and write caches share.
-- A node is named by its address. `AllocMem` is a parameter, by the value that the loop counter has
-- when it is called; what `FreeMem` gives back is part of the result.
pub mod Laws
pub mod Tests
use anfs.Base.{
  ℕ, zero, suc, ◌+◌, ◌-◌, ◌≤◌, ◌≡◌, Bool, true, false, Option, none, some, List, [], ◌∷◌, length,
  ◌==◌, if◌then◌else◌,
}

-- `g_NumMBufs`, `g_NumFreeMBufs` and the list at `g_FreeMBufs`
pub record Mbufs : Type 0 where
  pub num_mbufs : ℕ
  pub num_free_mbufs : ℕ
  pub free_mbufs : List ℕ

-- The counter says how many nodes are in the list, and none of them is missing from the total.
pub record IsCounted (g : Mbufs) : Type 0 where
  pub free_counted : g.num_free_mbufs ≡ length g.free_mbufs
  pub free-le-all : g.num_free_mbufs ≤ g.num_mbufs

-- The loop of `mb_FreeSomeMBufs`: the nodes that stay, and those that are freed. `none` is the use
-- of a node behind the end of the list.
pub free_nodes : ℕ → List ℕ → Option (List ℕ × List ℕ)
free_nodes zero nodes = some (nodes, [])
free_nodes (suc n) [] = none
free_nodes (suc n) (mbn ∷ nodes) = elim (free_nodes n nodes) [
  | none ↦ none
  | some (kept, freed) ↦ some (kept, mbn ∷ freed)
]

-- `mb_FreeSomeMBufs`, with the freed nodes
pub free_some_mbufs : Mbufs → ℕ → Option (Mbufs × List ℕ)
unfolding free_nodes
free_some_mbufs g num_bufs = elim (free_nodes num_bufs g.free_mbufs) [
  | none ↦ none
  | some (kept, freed) ↦ some (
    record {
      num_mbufs = g.num_mbufs - num_bufs;
      num_free_mbufs = g.num_free_mbufs - num_bufs;
      free_mbufs = kept;
    },
    freed,
  )
]

-- `mb_FreeMBufs`
pub free_mbufs_all : Mbufs → Option (Mbufs × List ℕ)
unfolding free_some_mbufs
free_mbufs_all g = if g.num_mbufs == 0 then some (g, []) else free_some_mbufs g g.num_mbufs

-- The outcome of an allocation: TRUE, or FALSE with the nodes that were freed again.
pub data Allocated : Type 0 where
  all_of_them : Mbufs → Allocated
  no_memory : Mbufs → List ℕ → Allocated
  fault : Allocated

-- The undoing in `mb_AllocMoreMBufs`, when `num_new` nodes were added and the next one is missing.
pub undo : Mbufs → (num_new : ℕ) → List ℕ → Allocated
unfolding free_some_mbufs
undo g num_new mbn_head =
    elim (free_some_mbufs
      (record {
        num_mbufs = g.num_mbufs + num_new;
        num_free_mbufs = g.num_free_mbufs + num_new;
        free_mbufs = mbn_head;
      })
      num_new) [ none ↦ fault | some (g', freed) ↦ no_memory g' freed ]

module _ (alloc_mem : ℕ → Option ℕ) where
  -- The loop of `mb_AllocMoreMBufs` with `i` rounds left.
  pub alloc_nodes : Mbufs → (num_bufs i : ℕ) → List ℕ → Allocated
  unfolding undo
  alloc_nodes g num_bufs zero mbn_head = all_of_them (record {
    num_mbufs = g.num_mbufs + num_bufs;
    num_free_mbufs = g.num_free_mbufs + num_bufs;
    free_mbufs = mbn_head;
  })
  alloc_nodes g num_bufs (suc i) mbn_head = elim (alloc_mem i) [
    | none ↦ undo g (num_bufs - (i + 1)) mbn_head
    | some mbn ↦ alloc_nodes g num_bufs i (mbn ∷ mbn_head)
  ]

  -- `mb_AllocMoreMBufs`
  unfoldable pub alloc_more_mbufs : Mbufs → ℕ → Allocated
  unfolding alloc_nodes
  alloc_more_mbufs g num_bufs = alloc_nodes g num_bufs num_bufs g.free_mbufs

  -- `mb_AllocMBufs`
  unfoldable pub alloc_mbufs : ℕ → Allocated
  unfolding alloc_more_mbufs
  alloc_mbufs num_bufs =
      alloc_more_mbufs (record { num_mbufs = 0; num_free_mbufs = 0; free_mbufs = [] }) num_bufs

-- `mb_ObtainMBuf`. `none` is a pointer that was never set, or one behind the end of the list.
unfoldable pub obtain_mbuf : Mbufs → Mbufs × Option ℕ
obtain_mbuf g = if g.num_free_mbufs == 0 then (g, none) else elim g.free_mbufs [
  | [] ↦ (record g { num_free_mbufs = g.num_free_mbufs - 1 }, none)
  | mbn ∷ rest ↦ (record g { num_free_mbufs = g.num_free_mbufs - 1; free_mbufs = rest }, some mbn)
]

-- `mb_ReleaseMBuf` of a node, or of NULL
unfoldable pub release_mbuf : Mbufs → Option ℕ → Mbufs
release_mbuf g none = g
release_mbuf g (some mbn) = record g {
  num_free_mbufs = g.num_free_mbufs + 1;
  free_mbufs = mbn ∷ g.free_mbufs;
}
