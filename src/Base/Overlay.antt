-- ===== src/Base/Overlay.antt =====
-- The contents of a file or a buffer as a function from positions to bytes, and a write into it.
use Prim.Native.Nat.{ℕ, zero, suc, ◌+◌, ◌-◌, ◌<◌, ◌≤◌}
use mathlib.Core.Path.{◌≡◌, refl, sym, ap, ◌∙◌}
use mathlib.Core.Bool.{true, false, ◌&&◌}
use mathlib.Core.Logic.{inl, inr}
use mathlib.Core.List.{List, [], ◌∷◌, ◌++◌}
use native.Mathlib.Nat.{add_assoc, add-zero, zero-add, suc-add, add-suc}
use native.Mathlib.Numerals.{add-one}
use native.Mathlib.Omega.{arith}
use anfs.Base.Tests.{Bool-cases, ltb, leb, ◌==◌, if◌then◌else◌}
use anfs.Base.Lists.{length}

abbrev pub Bytes : Type 0
Bytes = ℕ → ℕ

-- The contents after the bytes are written from position `offs` on.
unfoldable pub overlay : ℕ → List ℕ → Bytes → Bytes
overlay offs [] f = f
overlay offs (b ∷ bs) f = λ k. if k == offs then b else overlay (offs + 1) bs f k

-- `n` bytes of the contents from `offs` on.
unfoldable pub slice : Bytes → ℕ → ℕ → List ℕ
slice f offs zero = []
slice f offs (suc n) = f offs ∷ slice f (offs + 1) n

pub overlay_below :
    (offs : ℕ) (bs : List ℕ) (f : Bytes) (k : ℕ) → k < offs → overlay offs bs f k ≡ f k
unfolding overlay
overlay_below offs [] f k h = refl
overlay_below offs (b ∷ bs) f k h = ground (arith, overlay_below (offs + 1) bs f k)

pub overlay_above :
    (offs : ℕ) (bs : List ℕ) (f : Bytes) (k : ℕ) → offs + length bs ≤ k → overlay offs bs f k ≡ f k
unfolding overlay
overlay_above offs [] f k h = refl
overlay_above offs (b ∷ bs) f k h = ground (arith, overlay_above (offs + 1) bs f k)

-- A position is read from what is written, or from the same position below.
pub overlay_local :
    (offs : ℕ) (bs : List ℕ) (f g : Bytes) (k : ℕ)
    → f k ≡ g k
    → overlay offs bs f k ≡ overlay offs bs g k
unfolding overlay
overlay_local offs [] f g k e = e
overlay_local offs (b ∷ bs) f g k e = ground (arith, overlay_local (offs + 1) bs f g k e)

pub overlay-append :
    (offs : ℕ) (xs ys : List ℕ) (f : Bytes) (k : ℕ)
    → overlay offs (xs ++ ys) f k ≡ overlay (offs + length xs) ys (overlay offs xs f) k
unfolding overlay
overlay-append offs [] ys f k = rw add-zero refl
overlay-append offs (x ∷ xs) ys f k = elim (Bool-cases (k == offs)) [
  | inl here ↦ rw here (sym (overlay_below _ ys _ k (ground arith) ∙ rw here refl))
  | inr there ↦ rw there (
      overlay-append (offs + 1) xs ys f k
      ∙ rw (add-one, suc-add, ← add-suc)
          (overlay_local _ ys _ _ k (sym (rw there (rw add-one refl)))))
]

pub length-slice : (f : Bytes) (offs n : ℕ) → length (slice f offs n) ≡ n
unfolding slice
length-slice f offs zero = refl
length-slice f offs (suc n) = omega (arith, length-slice f (offs + 1) n)

-- A slice from `from` on, written at `offs` + `from`
pub overlay-slice :
    (f g : Bytes) (offs from n k p : ℕ)
    → p ≡ offs + from
    → overlay p (slice f from n) g k ≡ (if leb p k && ltb k (p + n) then f (k - offs) else g k)
unfolding overlay slice
overlay-slice f g offs from zero k p e = ground arith
overlay-slice f g offs from (suc n) k p e =
    ground (arith, overlay-slice f g offs (from + 1) n k (p + 1))

-- Bytes written at `offs`, read at one position: `bs` at that distance, or what was there
pub overlay_outside :
    (offs : ℕ) (bs : List ℕ) (f : Bytes) (k : ℕ)
    → (leb offs k && ltb k (offs + length bs)) ≡ false
    → overlay offs bs f k ≡ f k
overlay_outside offs bs f k h = ground (arith, overlay_below offs bs f k, overlay_above offs bs f k)

-- Where bytes are written, it does not matter what was there.
pub overlay_inside :
    (offs : ℕ) (bs : List ℕ) (f g : Bytes) (k : ℕ)
    → (leb offs k && ltb k (offs + length bs)) ≡ true
    → overlay offs bs f k ≡ overlay offs bs g k
unfolding overlay
overlay_inside offs [] f g k h = ground arith
overlay_inside offs (b ∷ bs) f g k h = ground (arith, overlay_inside (offs + 1) bs f g k)

-- Bytes written into a buffer at `offs`, read through the place of the buffer in the file
pub overlay_moved :
    (base offs : ℕ) (bs : List ℕ) (f g : Bytes) (k : ℕ)
    → (leb (base + offs) k && ltb k (base + offs + length bs)) ≡ true
    → overlay offs bs f (k - base) ≡ overlay (base + offs) bs g k
unfolding overlay
overlay_moved base offs [] f g k h = ground arith
overlay_moved base offs (b ∷ bs) f g k h =
    ground (arith, overlay_moved base (offs + 1) bs f g k, add_assoc base offs 1)

shift : (offs n : ℕ) → offs + suc n ≡ offs + 1 + n
shift offs n = omega arith

pub slice-append :
    (f : Bytes) (offs n m : ℕ) → slice f offs (n + m) ≡ slice f offs n ++ slice f (offs + n) m
unfolding slice
slice-append f offs zero m = rw (zero-add, add-zero) refl
slice-append f offs (suc n) m =
    rw (suc-add, shift offs n) (ap (◌∷◌ (f offs)) (slice-append f (offs + 1) n m))
