-- ===== src/Base/Slices.antt =====
-- Slices that agree, and slices of what was written.
use Prim.Native.Nat.{ℕ, zero, suc, ◌+◌, ◌<◌, ◌≤◌, min}
use mathlib.Core.Path.{◌≡◌, refl, ◌∙◌}
use mathlib.Core.List.{List, [], ◌∷◌}
use mathlib.Core.Path.{ap₂}
use native.Mathlib.Omega.{arith}
use anfs.Base.Tests.{◌==◌, if◌then◌else◌}
use anfs.Base.Lists.{length, take}
use anfs.Base.Overlay.{Bytes, overlay, slice}

slice_above :
    (f : Bytes) (b x o n : ℕ) → x < o → slice (λ k. if k == x then b else f k) o n ≡ slice f o n
unfolding slice
slice_above f b x o zero h = refl
slice_above f b x o (suc n) h = ap₂ ◌∷◌ (ground arith) (slice_above f b x (o + 1) n (omega arith))

pub slice-overlay : (o : ℕ) (bs : List ℕ) (f : Bytes) → slice (overlay o bs f) o (length bs) ≡ bs
unfolding slice overlay
slice-overlay o [] f = refl
slice-overlay o (b ∷ bs) f = ap₂ ◌∷◌ (ground arith) (
    slice_above (overlay (o + 1) bs f) b o (o + 1) (length bs) (omega arith)
    ∙ slice-overlay (o + 1) bs f)

pub take-slice : (f : Bytes) (o n m : ℕ) → take m (slice f o n) ≡ slice f o (min m n)
unfolding slice
take-slice f o n zero = ground arith
take-slice f o zero (suc m) = ground arith
take-slice f o (suc n) (suc m) = ground (arith, take-slice f (o + 1) n m)

-- Slices that agree, agree on every part.
pub slice_part :
    (f g : Bytes) (o p n k m : ℕ)
    → slice f o n ≡ slice g p n
    → k + m ≤ n
    → slice f (o + k) m ≡ slice g (p + k) m
unfolding slice
slice_part f g o p n k zero e h = refl
slice_part f g o p zero k (suc m) e h = absurd (omega arith)
slice_part f g o p (suc n) zero (suc m) e h =
    ground (arith, slice_part f g (o + 1) (p + 1) n zero m)
slice_part f g o p (suc n) (suc k) (suc m) e h =
    ground (arith, slice_part f g (o + 1) (p + 1) n k (suc m))
