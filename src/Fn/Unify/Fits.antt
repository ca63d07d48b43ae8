-- ===== src/Fn/Unify/Fits.antt =====
-- `fn_PathUnify` ends, and its result fits into the memory that it asks for.
use anfs.Base.{
  ℕ, zero, suc, ◌+◌, ◌<◌, ◌≤◌, ◌≡◌, refl, ap, ◌⊎◌, inl, inr, true, false, Bool, List, [], ◌∷◌,
  length, length-drop, reverse, ◌==◌, ◌&&◌, ◌||◌, not, if◌then◌else◌, arith, Bool-cases, Option,
  some, none,
}
use mathlib.Core.List.{reverse_aux}
use anfs.Nfssupp.{IoErr}
use anfs.Fn.{slash, dot, char_at}
use anfs.Fn.Unify.Chars.{at, next}
use anfs.Fn.Unify.Rounds.{at_slash-slash}
use anfs.Fn.Unify.{
  Unified, Unifying, is_empty, ends_name, starts_with_parent, strip_last, strip_slashes,
  slashes_stripped, at_slash, at_char, unify_end, unify_loop, path_unify,
}

-- A result of at most `size` bytes, that does not start with a separator, or one of the three errors
abbrev pub Fits : (size : ℕ) → Unified → Type 0
Fits size (Unified.unified path stripped_dirs) =
    (length path ≤ size) × ((char_at path 0 == slash) ≡ false)
Fits size (Unified.refused e) =
    (e ≡ IoErr.error_object_not_found)
    ⊎ (e ≡ IoErr.error_invalid_component_name)
    ⊎ (e ≡ IoErr.error_no_free_store)
Fits size Unified.stuck = ⊥

-- The bytes that are written and to come
abbrev bytes : Unifying → ℕ
bytes t = length t.s + length t.d + (if t.add_sep then 1 else 0)

length-reverse_aux : (n m : List ℕ) → length (reverse_aux n m) ≡ length n + length m
length-reverse_aux [] m = omega arith
length-reverse_aux (c ∷ n) m = omega (arith, length-reverse_aux n (c ∷ m))

length-strip_last : (d : List ℕ) → length (strip_last d) ≤ length d
unfolding strip_last
length-strip_last [] = omega arith
length-strip_last (c ∷ d) = ground (arith, length-strip_last d)

abbrev StripsTo : (s d : List ℕ) → Option (List ℕ × List ℕ) → Type 0
StripsTo s d none = Unit
StripsTo s d (some (s', d')) =
    (length s' ≤ length s) × (length s' + length d' ≤ length s + length d)

StripsTo-weaken :
    (s s' d d' : List ℕ) (o : Option (List ℕ × List ℕ))
    → length s ≤ length s'
    → length d ≤ length d'
    → StripsTo s d o
    → StripsTo s' d' o
StripsTo-weaken s s' d d' none h k r = tt
StripsTo-weaken s s' d d' (some (t, e)) h k r = (omega (arith, r.0), omega (arith, r.1))

strip_slashes-StripsTo : (s d : List ℕ) → StripsTo s d (strip_slashes s d)
unfolding strip_slashes
strip_slashes-StripsTo [] d = (omega arith, omega arith)
strip_slashes-StripsTo (c ∷ s) d = elim (Bool-cases (c == slash)) [
  | inr h ↦ rw h (omega arith, omega arith)
  | inl h ↦ elim (Bool-cases (is_empty d)) [
    | inl z ↦ rw (h, z) tt
    | inr z ↦
        rw (h, z)
          (StripsTo-weaken s (c ∷ s) (strip_last d) d _ (omega arith) (length-strip_last d)
            (strip_slashes-StripsTo s (strip_last d)))
  ]
]

-- The loop over `//` takes the first separator off.
slash-StripsTo : (s d : List ℕ) → StripsTo s d (strip_slashes (slash ∷ s) d)
unfolding strip_slashes
slash-StripsTo s d = elim (Bool-cases (is_empty d)) [
  | inl z ↦ rw z tt
  | inr z ↦ rw z (
      StripsTo-weaken s s (strip_last d) d _ (omega arith) (length-strip_last d)
        (strip_slashes-StripsTo s (strip_last d)))
]

abbrev Shrinks : Unifying → Option Unifying → Type 0
Shrinks t none = Unit
Shrinks t (some t') = (length t'.s ≤ length t.s) × (bytes t' ≤ bytes t + 1)

slashes_stripped-Shrinks :
    (t : Unifying) (s : List ℕ) (o : Option (List ℕ × List ℕ))
    → t.s ≡ slash ∷ s
    → StripsTo s t.d o
    → Shrinks t (slashes_stripped t o)
unfolding slashes_stripped
slashes_stripped-Shrinks t s none e r = tt
slashes_stripped-Shrinks t s (some (s', d')) e r =
    (omega (arith, r.0, ap length e), ground (arith, r.1, ap length e))

==→≡ : (a b : ℕ) → (a == b) ≡ true → a ≡ b
==→≡ a b h = ground arith

at_slash-Shrinks : (s d : List ℕ) (add b : Bool) → Shrinks (at s d add b) (at_slash (at s d add b))
unfolding at_slash
at_slash-Shrinks [] d add b = (omega arith, omega arith)
at_slash-Shrinks (c ∷ s) d add b = elim (Bool-cases (c == slash)) [
  | inl h ↦
      let e = ap (λ x. x ∷ s) (==→≡ c slash h) in
      rw (at_slash-slash (at (c ∷ s) d add b) s e)
        (slashes_stripped-Shrinks (at (c ∷ s) d add b) s _ e (slash-StripsTo s d))
  | inr h ↦ elim (Bool-cases (c == dot && ends_name (char_at s 0))) [
    | inl k ↦ simp (h, k) (omega arith, omega arith)
    | inr k ↦ elim (Bool-cases (starts_with_parent (c ∷ s))) [
      | inl p ↦ elim (Bool-cases (is_empty d)) [
        | inl z ↦ simp (h, k, p, z) tt
        | inr z ↦
            simp (h, k, p, z)
              (omega (arith, length-drop 1 s), ground (arith, length-drop 1 s, length-strip_last d))
      ]
      | inr p ↦ simp (h, k, p) (omega arith, ground arith)
    ]
  ]
]

unify_end-Fits : (size : ℕ) (t : Unifying) → length t.d ≤ size → Fits size (unify_end t)
unfolding unify_end
unify_end-Fits size t h = elim (Bool-cases (char_at (reverse t.d) 0 == slash)) [
  | inl z ↦ rw z (inl refl)
  | inr z ↦ elim (Bool-cases (starts_with_parent t.s)) [
    | inl p ↦ rw (z, p) (inl refl)
    | inr p ↦ rw (z, p) (omega (arith, length-reverse_aux t.d []), z)
  ]
]

abbrev LoopFits : (fuel size : ℕ) → Type 0
LoopFits fuel size =
    (t : Unifying) → length t.s < fuel → bytes t ≤ size → Fits size (unify_loop fuel t)

next-Fits :
    (fuel size : ℕ) (t : Unifying) (o : Option Unifying)
    → LoopFits fuel size
    → Shrinks t o
    → length t.s < fuel
    → bytes t + 1 ≤ size
    → Fits size (next fuel o)
next-Fits fuel size t none loop r f h = inr (inl refl)
next-Fits fuel size t (some t') loop r f h = loop t' (omega (arith, r.0)) (omega (arith, r.1))

at_char-bytes :
    (c : ℕ) (t : Unifying)
    → (length (at_char c t).s ≤ length t.s) × (bytes (at_char c t) ≤ bytes t + 1)
unfolding at_char
at_char-bytes c t = elim (Bool-cases (c == dot && ends_name (char_at t.s 0))) [
  | inl z ↦ rw z (omega arith, omega arith)
  | inr z ↦ elim (Bool-cases (t.add_sep && not (is_empty t.d))) [
    | inl k ↦ rw (z, k) (omega arith, ground arith)
    | inr k ↦ rw (z, k) (omega arith, ground arith)
  ]
]

round-Fits :
    (fuel size : ℕ) (s d : List ℕ) (add b : Bool)
    → LoopFits fuel size
    → length s < suc fuel
    → bytes (at s d add b) ≤ size
    → Fits size (unify_loop (suc fuel) (at s d add b))
unfolding unify_loop
round-Fits fuel size [] d add b loop f h = unify_end-Fits size (at [] d add b) (omega arith)
round-Fits fuel size (c ∷ s) d add b loop f h = elim (Bool-cases (c == slash)) [
  | inl z ↦ simp z (
      next-Fits fuel size (at s d add b) _ loop (at_slash-Shrinks s d add b) (omega arith)
        (omega arith))
  | inr z ↦
      let (l, k) = at_char-bytes c (at s d add b) in
      simp z (loop (at_char c (at s d add b)) (omega (arith, l)) (omega (arith, k)))
]

loop-Fits : (fuel size : ℕ) → LoopFits fuel size
loop-Fits zero size t f h = absurd (omega arith)
loop-Fits (suc fuel) size t f h =
    round-Fits fuel size t.s t.d t.add_sep t.stripped_dirs (loop-Fits fuel size) f h

-- `fn_PathUnify` ends on every string. Its result is no longer than the string, for which with the NUL
-- the memory is got, and does not start with a separator; otherwise the error is one of three.
pub path_unify-Fits : (memory : Bool) (ss : List ℕ) → Fits (length ss) (path_unify memory ss)
unfolding path_unify
path_unify-Fits memory ss = elim (Bool-cases (char_at ss 0 == slash || starts_with_parent ss)) [
  | inl z ↦ rw z (inl refl)
  | inr z ↦ rw z (by_memory memory)
]
  where
    by_memory :
        (memory : Bool)
        → Fits (length ss) (
            if memory
            then unify_loop (length ss + 1) (at ss [] false false)
            else Unified.refused IoErr.error_no_free_store)
    by_memory true =
        loop-Fits (length ss + 1) (length ss) (at ss [] false false) (omega arith) (omega arith)
    by_memory false = inr (inr refl)
