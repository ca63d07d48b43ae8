-- ===== src/Fn/Unify/Loop.antt =====
-- The loop of `fn_PathUnify` resolves the names in order.
use anfs.Base.{
  ℕ, zero, suc, ◌<◌, ◌≡◌, refl, ◌∙◌, sym, inl, inr, true, false, Bool, List, [], ◌∷◌, ◌++◌, length,
  arith, Bool-cases, length-append,
}
use mathlib.Core.Path.{subst}
use anfs.Fn.{slash, dot}
use anfs.Fn.Split.{slashed, plain, AllPlain}
use anfs.Fn.Unify.{Unifying, strip_slashes, slashes_stripped, unify_loop}
use anfs.Fn.Unify.Names.{is_here, is_parent, regular, AllRegular, resolve}
use anfs.Fn.Unify.Stack.{AllNames, rendered, strip_last-rendered, is_empty-rendered}
use anfs.Fn.Unify.Rounds.{
  at_slash-end, at_slash-slash, at_slash-name, at_slash-here, at_slash-parent,
}
use anfs.Fn.Unify.Chars.{
  at, Between, Inside, Starts, at_end, next, loop_slash, is_name-plain, plain-no_slash, not_special,
  Inside-suc, Starts-suc,
}

skip :
    (fuel : ℕ) (m : List ℕ) (ms st : List (List ℕ)) (t : Unifying) (b : Bool)
    → Between fuel
    → AllNames st
    → plain m ≡ true
    → AllPlain ms
    → AllRegular (m ∷ ms)
    → length (slashed (m ∷ ms)) < fuel
    → next fuel (slashes_stripped t (strip_slashes (slashed (m ∷ ms)) (rendered st)))
      ≡ resolve st b ([] ∷ m ∷ ms)
unfolding slashed strip_slashes rendered resolve slashes_stripped
skip fuel m ms [] t b between a p ps rs f = refl
skip fuel [] [] (top ∷ st) t b between a p ps rs f =
    rw (is_empty-rendered top st a.0, strip_last-rendered top st (is_name-plain top a.0))
      (between st ([] ∷ []) true true a.1 (p, ps) rs f)
skip fuel [] (k ∷ ms) (top ∷ st) t b between a p ps rs f =
    rw (is_empty-rendered top st a.0, strip_last-rendered top st (is_name-plain top a.0))
      (skip fuel k ms st t true between a.1 ps.0 ps.1 rs.1 (omega arith))
skip fuel (c ∷ m) ms (top ∷ st) t b between a p ps rs f =
    rw
      (
        is_empty-rendered top st a.0,
        strip_last-rendered top st (is_name-plain top a.0),
        plain-no_slash c m p,
      )
      (between st ((c ∷ m) ∷ ms) true true a.1 (p, ps) rs f)

pub resolve-here :
    (st : List (List ℕ)) (b : Bool) (ns : List (List ℕ))
    → resolve st b ((dot ∷ []) ∷ ns) ≡ resolve st b ns
unfolding resolve
resolve-here [] b ns = refl
resolve-here (top ∷ st) b ns = refl

pub resolve-name :
    (c : ℕ) (n : List ℕ) (st : List (List ℕ)) (b : Bool) (ns : List (List ℕ))
    → is_here (c ∷ n) ≡ false
    → is_parent (c ∷ n) ≡ false
    → resolve st b ((c ∷ n) ∷ ns) ≡ resolve ((c ∷ n) ∷ st) b ns
unfolding resolve
resolve-name c n [] b ns h p = rw (h, p) refl
resolve-name c n (top ∷ st) b ns h p = rw (h, p) refl

pub is_here→ : (n : List ℕ) → is_here n ≡ true → n ≡ dot ∷ []
is_here→ [] h = absurd (ground arith)
is_here→ (c ∷ []) h = ground arith
is_here→ (c ∷ x ∷ n) h = absurd (ground arith)

is_parent→ : (n : List ℕ) → is_parent n ≡ true → n ≡ dot ∷ dot ∷ []
is_parent→ [] h = absurd (ground arith)
is_parent→ (c ∷ []) h = absurd (ground arith)
is_parent→ (c ∷ x ∷ []) h = ground arith
is_parent→ (c ∷ x ∷ y ∷ n) h = absurd (ground arith)

-- The loop in front of a name does what the name says.
abbrev Resolves : (fuel : ℕ) (st ns : List (List ℕ)) (add b : Bool) → List ℕ → Type 0
Resolves fuel st ns add b n =
    unify_loop (suc fuel) (at (slash ∷ n ++ slashed ns) (rendered st) add b) ≡ resolve st b (n ∷ ns)

Between-here :
    (fuel : ℕ) (ns st : List (List ℕ)) (add b : Bool)
    → Between fuel
    → AllNames st
    → AllPlain ns
    → AllRegular ns
    → length (slashed ns) < fuel
    → Resolves fuel st ns add b (dot ∷ [])
Between-here fuel ns st add b between a ps rs f =
    loop_slash fuel (dot ∷ slashed ns) (rendered st) add b _
      (at_slash-here (at (dot ∷ slashed ns) (rendered st) add b) ns refl)
    ∙ between st ns add b a ps rs f
    ∙ sym (resolve-here st b ns)

Between-parent :
    (fuel : ℕ) (ns st : List (List ℕ)) (add b : Bool)
    → Between fuel
    → AllNames st
    → AllPlain ns
    → AllRegular ns
    → length (slashed ns) < fuel
    → Resolves fuel st ns add b (dot ∷ dot ∷ [])
unfolding resolve rendered
Between-parent fuel ns [] add b between a ps rs f =
    loop_slash fuel (dot ∷ dot ∷ slashed ns) (rendered []) add b _
      (at_slash-parent (at (dot ∷ dot ∷ slashed ns) (rendered []) add b) ns refl)
Between-parent fuel ns (top ∷ st) add b between a ps rs f =
    loop_slash fuel (dot ∷ dot ∷ slashed ns) (rendered (top ∷ st)) add b _
      (at_slash-parent (at (dot ∷ dot ∷ slashed ns) (rendered (top ∷ st)) add b) ns refl)
    ∙ rw (is_empty-rendered top st a.0, strip_last-rendered top st (is_name-plain top a.0))
        (between st ns true b a.1 ps rs f)

Between-name :
    (fuel : ℕ) (c : ℕ) (n : List ℕ) (ns st : List (List ℕ)) (add b : Bool)
    → Between fuel
    → Starts fuel
    → AllNames st
    → plain (c ∷ n) ≡ true
    → regular (c ∷ n) ≡ true
    → AllPlain ns
    → AllRegular ns
    → length (c ∷ n ++ slashed ns) < fuel
    → Resolves fuel st ns add b (c ∷ n)
Between-name fuel c n ns st add b between starts a p r ps rs f =
    elim (Bool-cases (is_here (c ∷ n))) [
      | inl here ↦ subst (Resolves fuel st ns add b) (sym (is_here→ (c ∷ n) here)) (
          Between-here fuel ns st add b between a ps rs
            (omega (arith, length-append n (slashed ns))))
      | inr not_here ↦ elim (Bool-cases (is_parent (c ∷ n))) [
        | inl parent ↦ subst (Resolves fuel st ns add b) (sym (is_parent→ (c ∷ n) parent)) (
            Between-parent fuel ns st add b between a ps rs
              (omega (arith, length-append n (slashed ns))))
        | inr not_parent ↦
            loop_slash fuel (c ∷ n ++ slashed ns) (rendered st) add b _ (
              at_slash-name (at (c ∷ n ++ slashed ns) (rendered st) add b) (c ∷ n) ns refl p
                not_here not_parent (not_special (c ∷ n) r not_here not_parent))
            ∙ starts c n st ns true b refl a p (not_special (c ∷ n) r not_here not_parent) ps rs f
            ∙ sym (resolve-name c n st b ns not_here not_parent)
      ]
    ]

Between-suc : (fuel : ℕ) → Between fuel → Starts fuel → Between (suc fuel)
unfolding slashed resolve
Between-suc fuel between starts st [] add b a ps rs f = at_end fuel st add b a
Between-suc fuel between starts st ([] ∷ []) add b a ps rs f =
    loop_slash fuel [] (rendered st) add b _ (at_slash-end (at [] (rendered st) add b) refl)
    ∙ between st [] add b a tt tt (omega arith)
Between-suc fuel between starts st ([] ∷ m ∷ ns) add b a ps rs f =
    loop_slash fuel (slashed (m ∷ ns)) (rendered st) add b _
      (at_slash-slash (at (slashed (m ∷ ns)) (rendered st) add b) (m ++ slashed ns) refl)
    ∙ skip fuel m ns st (at (slashed (m ∷ ns)) (rendered st) add b) b between a ps.1.0 ps.1.1 rs.1
        (omega arith)
Between-suc fuel between starts st ((c ∷ n) ∷ ns) add b a ps rs f =
    Between-name fuel c n ns st add b between starts a ps.0 rs.0 ps.1 rs.1 (omega arith)

pub all_states : (fuel : ℕ) → Between fuel × Starts fuel × Inside fuel
all_states zero = (
  λ st ns add b a ps rs f. absurd (omega arith),
  λ c n st ns add b ad a p e ps rs f. absurd (omega arith),
  λ done n st ns b a p e ps rs f. absurd (omega arith),
)
all_states (suc fuel) =
    let (between, starts, inside) = all_states fuel in
    let between' = Between-suc fuel between starts in
    (between', Starts-suc fuel inside, Inside-suc fuel between' inside)
