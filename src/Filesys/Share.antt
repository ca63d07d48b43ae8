-- ===== src/Filesys/Share.antt =====
-- How much memory the shares of `DistributeBuffers` take.
use anfs.Base.{
  ℕ, zero, suc, ◌+◌, ◌-◌, ◌*◌, ◌/◌, ◌≤◌, ◌<◌, ◌≡◌, refl, sym, inl, inr, ◌^◌, Bool, true, false,
  Option, none, some, ◌&&◌, not, ltb, if◌then◌else◌, arith, Bool-cases,
}
use mathlib.Core.Path.{subst}
use anfs.Wbuf.Info.{mbufsize}
use anfs.Filesys.{
  Shares, attrentrysize, direntrysize, used, distribute_rest, first_shares, prefer_buffers,
  distribute_buffers,
}

abbrev one_more : Shares → Shares
one_more s = record s { attrs = s.attrs + 1; dirs = s.dirs + 1 }

rest_ends :
    (fuel buf_mem : ℕ) (s : Shares)
    → ltb buf_mem (attrentrysize + direntrysize) ≡ true
    → distribute_rest (suc fuel) buf_mem s ≡ one_more s
unfolding distribute_rest
rest_ends fuel buf_mem s h = rw h refl

rest_goes_on :
    (fuel buf_mem : ℕ) (s : Shares)
    → ltb buf_mem (attrentrysize + direntrysize) ≡ false
    → distribute_rest (suc fuel) buf_mem s
      ≡ distribute_rest fuel (buf_mem - (attrentrysize + direntrysize)) (one_more s)
unfolding distribute_rest
rest_goes_on fuel buf_mem s h = rw h refl

-- Shares that take more than an amount of memory, but at most one entry of each kind more
abbrev Takes : ℕ → Shares → Type 0
Takes n s = (n < used s) × (used s ≤ n + (attrentrysize + direntrysize))

-- The rest is used up, and at most one entry of each kind is too much.
distribute_rest-Takes :
    (fuel buf_mem : ℕ) (s : Shares)
    → buf_mem < fuel
    → Takes (used s + buf_mem) (distribute_rest fuel buf_mem s)
distribute_rest-Takes zero buf_mem s h = absurd (omega arith)
distribute_rest-Takes (suc fuel) buf_mem s h =
    elim (Bool-cases (ltb buf_mem (attrentrysize + direntrysize))) [
      | inl less ↦
          subst (Takes (used s + buf_mem)) (sym (rest_ends fuel buf_mem s less))
            (ground arith, ground arith)
      | inr more ↦
          let (over, within) =
            distribute_rest-Takes fuel (buf_mem - (attrentrysize + direntrysize)) (one_more s)
              (ground arith) in
          subst (Takes (used s + buf_mem)) (sym (rest_goes_on fuel buf_mem s more))
            (ground (arith, over), ground (arith, within))
    ]

limited : (b : Bool) (n m : ℕ) → (if b && ltb m n then m else n) ≤ n
limited true n m = ground arith
limited false n m = omega arith

fifty : (b : Bool) (n : ℕ) → (if b && ltb 50 (n * mbufsize / 8192) then 50 else n) ≤ n
fifty true n = ground arith
fifty false n = omega arith

first_shares-used : (big slow : Bool) (buf_mem : ℕ) → used (first_shares big slow buf_mem) ≤ buf_mem
unfolding first_shares
first_shares-used big slow buf_mem = omega (
  arith,
  fifty slow (buf_mem / 2 / mbufsize),
  limited (not big) (buf_mem / 4 / attrentrysize) 200,
  limited (not big) (buf_mem / 4 / direntrysize) 200,
)

prefer_buffers-used :
    (big slow : Bool) (buf_mem : ℕ) (s : Shares)
    → used (prefer_buffers big slow buf_mem s) ≤ used s + buf_mem
unfolding prefer_buffers
prefer_buffers-used true slow buf_mem s = omega arith
prefer_buffers-used false true buf_mem s = omega arith
prefer_buffers-used false false buf_mem s = omega arith

-- Shares with 20 entries at least for each cache, which take more memory than `mem`, but at most that
-- of 21 entries of each cache more
abbrev pub SharesOut : (mem : ℕ) → Option Shares → Type 0
SharesOut mem none = ⊥
SharesOut mem (some s) =
    (20 ≤ s.attrs)
    × (20 ≤ s.dirs)
    × (mem < used s)
    × (used s ≤ mem + 21 * (attrentrysize + direntrysize))

-- `DistributeBuffers` of a number of buffers whose memory, `NumBufs` blocks of 512 bytes, fits in a
-- `LONG` gives the caches 20 entries each at least. The shares take more memory than the buffers
-- have, but at most that of 21 entries of each cache more.
pub distribute_buffers-SharesOut :
    (big_timeout is_slow_medium : Bool) (num_bufs : ℕ)
    → num_bufs * 512 < 2 ^ 31
    → SharesOut (num_bufs * 512) (distribute_buffers big_timeout is_slow_medium num_bufs)
unfolding distribute_buffers
distribute_buffers-SharesOut big slow num_bufs fits =
    let buf_mem = num_bufs * 512 in
    let s1 = first_shares big slow buf_mem in
    let s2 = prefer_buffers big slow (buf_mem - used s1) s1 in
    let first = first_shares-used big slow buf_mem in
    let prefer = prefer_buffers-used big slow (buf_mem - used s1) s1 in
    let (over, within) =
      distribute_rest-Takes (buf_mem - used s2 + 1) (buf_mem - used s2) s2 (omega arith) in
    let in_long : ltb (num_bufs * 512) (2 ^ 31) ≡ true = ground arith in
    rw (in_long, distribute_buffers)
      (
        omega arith,
        omega arith,
        omega (arith, first, prefer, over),
        omega (arith, first, prefer, within),
      )
