-- ===== src/Mbuf/Laws.antt =====
-- The pool keeps count of its nodes, loses none and hands out none twice.
use anfs.Base.{
  ℕ, zero, suc, ◌+◌, ◌-◌, ◌<◌, ◌≡◌, refl, inl, inr, Option, none, some, List, [], ◌∷◌, ◌++◌, length,
  arith, Option-cases,
}
use anfs.Mbuf.{
  Mbufs, IsCounted, free_nodes, free_some_mbufs, Allocated, all_of_them, no_memory, fault, undo,
  alloc_nodes, alloc_more_mbufs, obtain_mbuf, release_mbuf,
}

-- After the nodes `new` were put in front, freeing as many takes exactly them away.
free_nodes-append : (new old : List ℕ) → free_nodes (length new) (new ++ old) ≡ some (old, new)
unfolding free_nodes
free_nodes-append [] old = refl
free_nodes-append (x ∷ new) old = rw (free_nodes-append new old) refl

module _ (alloc_mem : ℕ → Option ℕ) where
  -- The nodes that `AllocMem` gave in the rounds from the counter `i` on, the latest first
  abbrev pub Given : (i : ℕ) → List ℕ → Type 0
  Given i [] = Unit {0}
  Given i (mbn ∷ nodes) = (alloc_mem i ≡ some mbn) × Given (suc i) nodes

  -- What an allocation of `num_bufs` nodes must do.
  abbrev pub Allocates : Mbufs → ℕ → Allocated → Type 0
  Allocates g num_bufs (all_of_them g') =
      (g'.num_mbufs ≡ g.num_mbufs + num_bufs)
      × (g'.num_free_mbufs ≡ g.num_free_mbufs + num_bufs)
      × ((new : List ℕ) × (length new ≡ num_bufs)
          × Given 0 new
          × (g'.free_mbufs ≡ new ++ g.free_mbufs))
  Allocates g num_bufs (no_memory g' freed) =
      (g' ≡ g)
      × ((i : ℕ) × (alloc_mem i ≡ none) × (length freed + i + 1 ≡ num_bufs) × Given (suc i) freed)
  Allocates g num_bufs fault = ⊥

  undo-Allocates :
      (g : Mbufs) (num_bufs i num_new : ℕ) (new : List ℕ)
      → length new ≡ num_new
      → alloc_mem i ≡ none
      → length new + i + 1 ≡ num_bufs
      → Given (suc i) new
      → Allocates g num_bufs (undo g num_new (new ++ g.free_mbufs))
  unfolding undo free_some_mbufs
  undo-Allocates g num_bufs i num_new new e full l given =
      rw (← e, free_nodes-append new g.free_mbufs, undo) (ground arith, (i, full, l, given))

  alloc_nodes-Allocates :
      (g : Mbufs) (num_bufs i : ℕ) (new : List ℕ)
      → length new + i ≡ num_bufs
      → Given i new
      → Allocates g num_bufs (alloc_nodes alloc_mem g num_bufs i (new ++ g.free_mbufs))
  unfolding alloc_nodes
  alloc_nodes-Allocates g num_bufs zero new e given = (refl, refl, (new, omega arith, given, refl))
  alloc_nodes-Allocates g num_bufs (suc i) new e given = elim (Option-cases (alloc_mem i)) [
    | inl full ↦
        rw (full, Allocates)
          (undo-Allocates g num_bufs i (num_bufs - (i + 1)) new (omega arith) full (omega arith)
            given)
    | inr (mbn, got) ↦
        rw (got, Allocates)
          (alloc_nodes-Allocates g num_bufs i (mbn ∷ new) (omega arith) (got, given))
  ]

  -- `mb_AllocMoreMBufs` puts the `num_bufs` nodes that `AllocMem` gives in front of the free list and
  -- counts them; or one call of `AllocMem` fails, and it frees exactly the nodes that the calls
  -- before gave, and leaves the pool as it was.
  pub alloc_more_mbufs-Allocates :
      (g : Mbufs) (num_bufs : ℕ) → Allocates g num_bufs (alloc_more_mbufs alloc_mem g num_bufs)
  unfolding alloc_more_mbufs
  alloc_more_mbufs-Allocates g num_bufs =
      alloc_nodes-Allocates g num_bufs num_bufs [] (omega arith) tt

pub first_of_positive :
    (nodes : List ℕ) → 0 < length nodes → (mbn : ℕ) × (rest : List ℕ) × (nodes ≡ mbn ∷ rest)
first_of_positive [] h = elim h [ ]
first_of_positive (mbn ∷ rest) h = (mbn, rest, refl)

-- In a counted pool with a free node `mb_ObtainMBuf` returns the first node of the free list, and
-- `mb_ReleaseMBuf` of it restores the pool; the pool is counted in between.
pub release_mbuf-obtain_mbuf :
    (g : Mbufs)
    → IsCounted g
    → 0 < g.num_free_mbufs
    → (mbn : ℕ) × ((obtain_mbuf g).1 ≡ some mbn)
      × IsCounted (obtain_mbuf g).0
      × (g.free_mbufs ≡ mbn ∷ (obtain_mbuf g).0.free_mbufs)
      × (release_mbuf (obtain_mbuf g).0 (some mbn) ≡ g)
unfolding obtain_mbuf release_mbuf
release_mbuf-obtain_mbuf g c h =
    let (mbn, rest, e) = first_of_positive g.free_mbufs (omega arith) in
    (
      mbn,
      ground arith,
      record { free_counted = ground arith; free-le-all = ground arith },
      ground arith,
      ground arith,
    )
