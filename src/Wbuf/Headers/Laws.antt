-- ===== src/Wbuf/Headers/Laws.antt =====
-- An allocation of headers gives all of them, or none and frees what it got.
use anfs.Base.{
  ℕ, zero, suc, ◌+◌, ◌≡◌, refl, inl, inr, Option, none, List, [], ◌∷◌, length, arith, Option-cases,
}
use anfs.Wbuf.Headers.{
  free_loop, free_wbufs, Allocated, all_of_them, no_memory, alloc_loop, alloc_wbufs,
}

-- What an allocation of `num_bufs` headers must do
abbrev pub Allocates : (alloc_vec : ℕ → Option ℕ) → ℕ → Allocated → Type 0
Allocates alloc_vec num_bufs (all_of_them g) =
    (g.num_wbuf_hdrs ≡ num_bufs)
    × (g.num_free_wbuf_hdrs ≡ num_bufs)
    × (length g.free_wbuf_hdr ≡ num_bufs)
Allocates alloc_vec num_bufs (no_memory (g, freed)) =
    (g.num_wbuf_hdrs ≡ 0)
    × (g.num_free_wbuf_hdrs ≡ 0)
    × (g.free_wbuf_hdr ≡ [])
    × ((i : ℕ) × (alloc_vec i ≡ none) × (length freed + i + 1 ≡ num_bufs))

length-free_loop : (hdrs : List ℕ) → length (free_loop hdrs) ≡ length hdrs
unfolding free_loop
length-free_loop [] = refl
length-free_loop (wbh ∷ rest) = omega (arith, length-free_loop rest)

alloc_loop-Allocates :
    (alloc_vec : ℕ → Option ℕ) (num_bufs i : ℕ) (wbh_head : List ℕ)
    → length wbh_head + i ≡ num_bufs
    → Allocates alloc_vec num_bufs (alloc_loop alloc_vec num_bufs i wbh_head)
unfolding alloc_loop free_wbufs
alloc_loop-Allocates alloc_vec num_bufs zero wbh_head e = (refl, refl, omega arith)
alloc_loop-Allocates alloc_vec num_bufs (suc i) wbh_head e = elim (Option-cases (alloc_vec i)) [
  | inl full ↦
      rw (full, alloc_loop, Allocates)
        (refl, refl, refl, (i, full, omega (arith, length-free_loop wbh_head)))
  | inr (wbh, got) ↦
      rw (got, alloc_loop, Allocates)
        (alloc_loop-Allocates alloc_vec num_bufs i (wbh ∷ wbh_head) (omega arith))
]

-- `wc_AllocWBufs` makes a pool of exactly `num_bufs` headers, all of them free and counted; or one
-- allocation failed, as many headers were freed again as came before it, and the pool is empty.
pub alloc_wbufs-Allocates :
    (alloc_vec : ℕ → Option ℕ) (num_bufs : ℕ)
    → Allocates alloc_vec num_bufs (alloc_wbufs alloc_vec num_bufs)
unfolding alloc_wbufs
alloc_wbufs-Allocates alloc_vec num_bufs =
    alloc_loop-Allocates alloc_vec num_bufs num_bufs [] (omega arith)
