-- ===== src/Fn/Unify/Chars.antt =====
-- The loop of `fn_PathUnify`, byte by byte.
use anfs.Base.{
  ℕ, suc, ◌<◌, ◌≡◌, refl, ap, ◌∙◌, true, false, Bool, List, [], ◌∷◌, ◌++◌, length, ◌==◌, ◌||◌, ◌&&◌,
  not, if◌then◌else◌, arith, Option, some, none,
}
use mathlib.Core.List.{append_assoc, append-nil}
use anfs.Nfssupp.{IoErr}
use anfs.Fn.{slash}
use anfs.Fn.Split.{slashed, plain, AllPlain}
use anfs.Fn.Unify.{Unified, Unifying, is_empty, at_slash, at_char, unify_end, unify_loop}
use anfs.Fn.Unify.Names.{is_here, is_parent, ends_in_dot, regular, AllRegular, joined, resolve}
use anfs.Fn.Unify.Stack.{
  is_name, AllNames, rendered, reverse-rendered, is_empty-rendered, rendered-push, joined-no_slash,
}
use anfs.Fn.Unify.Rounds.{at_char-name}

abbrev pub at : (s d : List ℕ) (add_sep stripped_dirs : Bool) → Unifying
at s d add_sep stripped_dirs = record {
  s = s;
  d = d;
  add_sep = add_sep;
  stripped_dirs = stripped_dirs;
}

-- The loop does what the names say where it stands in front of a separator, and inside of a name of
-- which `done` is written.
abbrev pub Between : ℕ → Type 0
Between fuel =
    (st ns : List (List ℕ)) (add b : Bool)
    → AllNames st
    → AllPlain ns
    → AllRegular ns
    → length (slashed ns) < fuel
    → unify_loop fuel (at (slashed ns) (rendered st) add b) ≡ resolve st b ns

abbrev pub Inside : ℕ → Type 0
Inside fuel =
    (done n : List ℕ) (st ns : List (List ℕ)) (b : Bool)
    → AllNames (done ∷ st)
    → plain n ≡ true
    → ends_in_dot n ≡ false
    → AllPlain ns
    → AllRegular ns
    → length (n ++ slashed ns) < fuel
    → unify_loop fuel (at (n ++ slashed ns) (rendered (done ∷ st)) false b)
      ≡ resolve ((done ++ n) ∷ st) b ns

-- The loop at the start of a name
abbrev pub Starts : ℕ → Type 0
Starts fuel =
    (c : ℕ) (n : List ℕ) (st ns : List (List ℕ)) (add b : Bool)
    → (add || is_empty (rendered st)) ≡ true
    → AllNames st
    → plain (c ∷ n) ≡ true
    → ends_in_dot (c ∷ n) ≡ false
    → AllPlain ns
    → AllRegular ns
    → length (c ∷ n ++ slashed ns) < fuel
    → unify_loop fuel (at (c ∷ n ++ slashed ns) (rendered st) add b) ≡ resolve ((c ∷ n) ∷ st) b ns

-- The end of the path
pub at_end :
    (fuel : ℕ) (st : List (List ℕ)) (add b : Bool)
    → AllNames st
    → unify_loop (suc fuel) (at [] (rendered st) add b) ≡ Unified.unified (joined st) b
unfolding unify_loop unify_end
at_end fuel st add b a = rw (reverse-rendered st, joined-no_slash st a) refl

-- What follows a round at a separator
abbrev pub next : (fuel : ℕ) → Option Unifying → Unified
next fuel none = Unified.refused IoErr.error_invalid_component_name
next fuel (some t) = unify_loop fuel t

pub loop_slash :
    (fuel : ℕ) (s d : List ℕ) (add b : Bool) (r : Option Unifying)
    → at_slash (at s d add b) ≡ r
    → unify_loop (suc fuel) (at (slash ∷ s) d add b) ≡ next fuel r
unfolding unify_loop
loop_slash fuel s d add b r e = ap (next fuel) e

pub loop_char :
    (fuel c : ℕ) (s d : List ℕ) (add b : Bool) (t : Unifying)
    → (c == slash) ≡ false
    → at_char c (at s d add b) ≡ t
    → unify_loop (suc fuel) (at (c ∷ s) d add b) ≡ unify_loop fuel t
unfolding unify_loop
loop_char fuel c s d add b t n e = rw n (ap (unify_loop fuel) e)

pub is_name-push :
    (n : List ℕ) (c : ℕ) → is_name n ≡ true → plain (c ∷ []) ≡ true → is_name (n ++ c ∷ []) ≡ true
is_name-push [] c h p = p
is_name-push (x ∷ []) c h p = ground arith
is_name-push (x ∷ y ∷ n) c h p = ground (arith, is_name-push (y ∷ n) c)

pub is_name-plain : (n : List ℕ) → is_name n ≡ true → plain n ≡ true
is_name-plain [] h = refl
is_name-plain (c ∷ n) h = h

pub plain-no_slash : (c : ℕ) (n : List ℕ) → plain (c ∷ n) ≡ true → (c == slash) ≡ false
plain-no_slash c n h = ground arith

pub ends_in_dot-tail : (c : ℕ) (n : List ℕ) → ends_in_dot (c ∷ n) ≡ false → ends_in_dot n ≡ false
ends_in_dot-tail c [] h = refl
ends_in_dot-tail c (x ∷ n) h = h

pub not_special :
    (n : List ℕ)
    → regular n ≡ true
    → is_here n ≡ false
    → is_parent n ≡ false
    → ends_in_dot n ≡ false
not_special n r h p = ground arith

pub first_byte :
    (st : List (List ℕ)) (c : ℕ) (add : Bool)
    → (add || is_empty (rendered st)) ≡ true
    → AllNames st
    → c ∷ (if add && not (is_empty (rendered st)) then slash ∷ rendered st else rendered st)
      ≡ rendered ((c ∷ []) ∷ st)
unfolding rendered
first_byte [] c true h a = refl
first_byte [] c false h a = refl
first_byte (n ∷ st) c true h a = rw (is_empty-rendered n st a.0) refl
first_byte (n ∷ st) c false h a = absurd (ground (arith, is_empty-rendered n st a.0))

pub Inside-suc : (fuel : ℕ) → Between (suc fuel) → Inside fuel → Inside (suc fuel)
Inside-suc fuel between inside done [] st ns b a p e ps rs f =
    rw (append-nil done) (between (done ∷ st) ns false b a ps rs f)
Inside-suc fuel between inside done (c ∷ n) st ns b a p e ps rs f =
    loop_char fuel c (n ++ slashed ns) (rendered (done ∷ st)) false b _ (ground arith) (
      at_char-name c n ns (at (n ++ slashed ns) (rendered (done ∷ st)) false b) refl (ground arith)
        e)
    ∙ ap (λ d. unify_loop fuel (at (n ++ slashed ns) d false b)) (rendered-push done c st)
    ∙ inside (done ++ c ∷ []) n st ns b (is_name-push done c a.0 (ground arith), a.1) (ground arith)
        (ends_in_dot-tail c n e) ps rs (omega arith)
    ∙ ap (λ x. resolve (x ∷ st) b ns) (append_assoc done (c ∷ []) n)

pub Starts-suc : (fuel : ℕ) → Inside fuel → Starts (suc fuel)
Starts-suc fuel inside c n st ns add b ad a p e ps rs f =
    loop_char fuel c (n ++ slashed ns) (rendered st) add b _ (ground arith)
      (at_char-name c n ns (at (n ++ slashed ns) (rendered st) add b) refl (ground arith) e)
    ∙ ap (λ d. unify_loop fuel (at (n ++ slashed ns) d false b)) (first_byte st c add ad a)
    ∙ inside (c ∷ []) n st ns b (ground arith, a) (ground arith) (ends_in_dot-tail c n e) ps rs
        (omega arith)
