-- ===== src/Fn/Unify/Laws.antt =====
-- `fn_PathUnify` resolves the names in order.
use anfs.Base.{
  ℕ, ◌+◌, ◌≡◌, refl, ap, ◌∙◌, sym, inl, inr, true, false, List, [], ◌∷◌, ◌++◌, length, ◌==◌, arith,
  Bool-cases,
}
use mathlib.Core.Path.{subst}
use anfs.Fn.{slash, dot, char_at}
use anfs.Fn.Split.{split, slashed, split-join, no_nul, plain, AllPlain, split-AllPlain}
use anfs.Fn.Unify.{starts_with_parent, unify_loop, path_unify}
use anfs.Fn.Unify.Names.{is_here, is_parent, regular, AllRegular, resolve, resolve_path}
use anfs.Fn.Unify.Stack.{rendered}
use anfs.Fn.Unify.Rounds.{at_char-here}
use native.Mathlib.Numerals.{add-one}
use anfs.Fn.Unify.Chars.{at, loop_char, at_end, not_special, plain-no_slash}
use anfs.Fn.Unify.Loop.{all_states, is_here→, resolve-here, resolve-name}

starts_with_parent-is_parent :
    (n : List ℕ) (ns : List (List ℕ))
    → plain n ≡ true
    → starts_with_parent (n ++ slashed ns) ≡ is_parent n
unfolding slashed
starts_with_parent-is_parent [] [] p = refl
starts_with_parent-is_parent [] (m ∷ ns) p = refl
starts_with_parent-is_parent (c ∷ []) [] p = ground arith
starts_with_parent-is_parent (c ∷ []) (m ∷ ns) p = ground arith
starts_with_parent-is_parent (c ∷ x ∷ []) [] p = ground arith
starts_with_parent-is_parent (c ∷ x ∷ []) (m ∷ ns) p = ground arith
starts_with_parent-is_parent (c ∷ x ∷ y ∷ n) ns p = ground arith

loop_here :
    (ns : List (List ℕ))
    → AllPlain ns
    → AllRegular ns
    → unify_loop (length (dot ∷ slashed ns) + 1) (at (dot ∷ slashed ns) [] false false)
      ≡ resolve [] false ((dot ∷ []) ∷ ns)
unfolding rendered
loop_here ns ps rs = rw (add-one (length (dot ∷ slashed ns))) (
    loop_char (length (dot ∷ slashed ns)) dot (slashed ns) [] false false _ refl
      (at_char-here ns (at (slashed ns) [] false false) refl)
    ∙ (all_states (length (dot ∷ slashed ns))).0 [] ns false false tt ps rs (omega arith)
    ∙ sym (resolve-here [] false ns))

loop_name :
    (c : ℕ) (n : List ℕ) (ns : List (List ℕ))
    → plain (c ∷ n) ≡ true
    → regular (c ∷ n) ≡ true
    → is_parent (c ∷ n) ≡ false
    → AllPlain ns
    → AllRegular ns
    → unify_loop (length (c ∷ n ++ slashed ns) + 1) (at (c ∷ n ++ slashed ns) [] false false)
      ≡ resolve [] false ((c ∷ n) ∷ ns)
unfolding rendered
loop_name c n ns p r not_parent ps rs = elim (Bool-cases (is_here (c ∷ n))) [
  | inl here ↦
      subst
        (λ m.
          unify_loop (length (m ++ slashed ns) + 1) (at (m ++ slashed ns) [] false false)
          ≡ resolve [] false (m ∷ ns))
        (sym (is_here→ (c ∷ n) here)) (loop_here ns ps rs)
  | inr not_here ↦
      (all_states (length (c ∷ n ++ slashed ns) + 1)).1 c n [] ns false false refl tt p
        (not_special (c ∷ n) r not_here not_parent) ps rs (omega arith)
      ∙ sym (resolve-name c n [] false ns not_here not_parent)
]

path_unify_loop :
    (ss : List ℕ)
    → (char_at ss 0 == slash) ≡ false
    → starts_with_parent ss ≡ false
    → path_unify true ss ≡ unify_loop (length ss + 1) (at ss [] false false)
unfolding path_unify
path_unify_loop ss h p = rw (h, p) refl

resolve_path_name :
    (c : ℕ) (n : List ℕ) (ns : List (List ℕ))
    → is_parent (c ∷ n) ≡ false
    → resolve_path (c ∷ n) ns ≡ resolve [] false ((c ∷ n) ∷ ns)
unfolding resolve_path
resolve_path_name c n ns p = rw p refl

of_names :
    (n : List ℕ) (ns : List (List ℕ))
    → plain n ≡ true
    → AllPlain ns
    → AllRegular (n ∷ ns)
    → path_unify true (n ++ slashed ns) ≡ resolve_path n ns
unfolding path_unify resolve_path slashed rendered
of_names [] [] p ps rs = at_end 0 [] false false tt
of_names [] (m ∷ ns) p ps rs = refl
of_names (c ∷ n) ns p ps rs = elim (Bool-cases (is_parent (c ∷ n))) [
  | inl parent ↦ rw (plain-no_slash c n p, starts_with_parent-is_parent (c ∷ n) ns p, parent) refl
  | inr not_parent ↦
      path_unify_loop (c ∷ n ++ slashed ns) (plain-no_slash c n p)
        (starts_with_parent-is_parent (c ∷ n) ns p ∙ not_parent)
      ∙ loop_name c n ns p rs.0 not_parent ps rs.1
      ∙ sym (resolve_path_name c n ns not_parent)
]

-- `fn_PathUnify` of a string of C with memory for the result ends and resolves the path by its names.
-- The premise is that a component that ends in a dot is `.` or `..`.
pub path_unify-resolve_path :
    (ss : List ℕ)
    → no_nul ss ≡ true
    → AllRegular ((split ss).0 ∷ (split ss).1)
    → path_unify true ss ≡ resolve_path (split ss).0 (split ss).1
path_unify-resolve_path ss h rs =
    let (p, ps) = split-AllPlain ss h in
    ap (path_unify true) (sym (split-join ss)) ∙ of_names (split ss).0 (split ss).1 p ps rs
