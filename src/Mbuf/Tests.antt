-- ===== src/Mbuf/Tests.antt =====
-- Runs of the pool, and its theorems at concrete pools.
use anfs.Base.{ℕ, ◌≡◌, refl, ltb, Option, none, some, [], ◌∷◌, ◌+◌, if◌then◌else◌}
use anfs.Mbuf.{Mbufs, all_of_them, no_memory, alloc_mbufs, alloc_more_mbufs, free_mbufs_all}
use anfs.Mbuf.Laws.{Allocates, alloc_more_mbufs-Allocates}

-- Rounds 2 and 1 find memory, round 0 does not.
abbrev short_of_memory : ℕ → Option ℕ
short_of_memory i = if ltb 0 i then some (100 + i) else none

abbrev two : Mbufs
two = record { num_mbufs = 2; num_free_mbufs = 2; free_mbufs = 8 ∷ 9 ∷ [] }

allocated_two :
    alloc_mbufs (λ i. some i) 2
    ≡ all_of_them (record { num_mbufs = 2; num_free_mbufs = 2; free_mbufs = 0 ∷ 1 ∷ [] })
unfolding alloc_mbufs
allocated_two = refl

undone : alloc_more_mbufs short_of_memory two 3 ≡ no_memory two (101 ∷ 102 ∷ [])
unfolding alloc_more_mbufs
undone = refl

all_freed :
    free_mbufs_all two
    ≡ some (record { num_mbufs = 0; num_free_mbufs = 0; free_mbufs = [] }, 8 ∷ 9 ∷ [])
unfolding free_mbufs_all
all_freed = refl

alloc_more_mbufs-Allocates_example :
    Allocates short_of_memory two 3 (alloc_more_mbufs short_of_memory two 3)
alloc_more_mbufs-Allocates_example = alloc_more_mbufs-Allocates short_of_memory two 3
