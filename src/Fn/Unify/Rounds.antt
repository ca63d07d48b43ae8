-- ===== src/Fn/Unify/Rounds.antt =====
-- The rounds of the loop in `fn_PathUnify` by the next name.
use anfs.Base.{
  ℕ, ◌≡◌, refl, true, false, List, [], ◌∷◌, ◌++◌, ◌&&◌, not, if◌then◌else◌, arith, some, none,
}
use anfs.Fn.{slash, dot, char_at}
use anfs.Fn.Split.{slashed, plain}
use anfs.Fn.Unify.{
  Unifying, is_empty, ends_name, strip_last, strip_slashes, slashes_stripped, at_slash, at_char,
}
use anfs.Fn.Unify.Names.{is_here, is_parent, ends_in_dot}
use anfs.Fn.Unify.Stack.{is_name}

-- What stands behind a name ends it.
ends_name-slashed : (ns : List (List ℕ)) → ends_name (char_at (slashed ns) 0) ≡ true
unfolding slashed
ends_name-slashed [] = refl
ends_name-slashed (n ∷ ns) = refl

pub at_slash-end : (t : Unifying) → t.s ≡ [] → at_slash t ≡ some t
unfolding at_slash
at_slash-end t e = rw e refl

pub at_slash-slash :
    (t : Unifying) (s : List ℕ)
    → t.s ≡ slash ∷ s
    → at_slash t ≡ slashes_stripped t (strip_slashes (slash ∷ s) t.d)
unfolding at_slash
at_slash-slash t s e = rw e refl

pub at_slash-name :
    (t : Unifying) (n : List ℕ) (ns : List (List ℕ))
    → t.s ≡ n ++ slashed ns
    → is_name n ≡ true
    → is_here n ≡ false
    → is_parent n ≡ false
    → ends_in_dot n ≡ false
    → at_slash t ≡ some (record t { add_sep = true })
unfolding at_slash
at_slash-name t [] ns e i h p d = absurd (ground arith)
at_slash-name t (c ∷ []) ns e i h p d = rw e (ground arith)
at_slash-name t (c ∷ x ∷ []) ns e i h p d = rw e (ground arith)
at_slash-name t (c ∷ x ∷ y ∷ n) ns e i h p d = rw e (ground arith)

pub at_slash-here :
    (t : Unifying) (ns : List (List ℕ))
    → t.s ≡ dot ∷ slashed ns
    → at_slash t ≡ some (record t { s = slashed ns })
unfolding at_slash
at_slash-here t ns e = rw e (ground (arith, ends_name-slashed ns))

pub at_slash-parent :
    (t : Unifying) (ns : List (List ℕ))
    → t.s ≡ dot ∷ dot ∷ slashed ns
    → at_slash t ≡ (
        if is_empty t.d
        then none
        else some (record t { s = slashed ns; d = strip_last t.d; add_sep = true }))
unfolding at_slash
at_slash-parent t ns e = rw e (ground (arith, ends_name-slashed ns))

-- A byte of a name that is not a dot at its end is written.
pub at_char-name :
    (c : ℕ) (n : List ℕ) (ns : List (List ℕ)) (t : Unifying)
    → t.s ≡ n ++ slashed ns
    → plain n ≡ true
    → ends_in_dot (c ∷ n) ≡ false
    → at_char c t ≡ record t {
      d = c ∷ (if t.add_sep && not (is_empty t.d) then slash ∷ t.d else t.d);
      add_sep = false;
    }
unfolding at_char
at_char-name c [] ns t e p d = rw e (ground arith)
at_char-name c (x ∷ n) ns t e p d = rw e (ground arith)

pub at_char-here : (ns : List (List ℕ)) (t : Unifying) → t.s ≡ slashed ns → at_char dot t ≡ t
unfolding at_char
at_char-here ns t e = rw e (ground (arith, ends_name-slashed ns))
