-- ===== src/Fn/Parent.antt =====
-- `fn_AM2UN` names the same components, with `..` for the empty ones, and stays in its memory.
use anfs.Base.{
  ℕ, ◌+◌, ◌≡◌, refl, inl, inr, Bool, true, false, Option, some, none, List, [], ◌∷◌, length, ◌==◌,
  arith, Bool-cases,
}
use anfs.Fn.{slash, dot, extra_chars, dotted, am2un}
use anfs.Fn.Split.{split}

-- The components behind the first one as Unix names them: an empty one, but the last, is the parent.
unfoldable pub parents : List (List ℕ) → List (List ℕ)
parents [] = []
parents ([] ∷ m ∷ ns) = (dot ∷ dot ∷ []) ∷ parents (m ∷ ns)
parents ([] ∷ []) = [] ∷ []
parents ((c ∷ n) ∷ ns) = (c ∷ n) ∷ parents ns

-- What `fn_AM2UN` gives for a string: NULL without memory, or a string with the components
-- of the other that fills the memory exactly, with the NUL
abbrev pub NamesParents : (memory : Bool) → List ℕ → Option (List ℕ) → Type 0
NamesParents false s t = t ≡ none
NamesParents true s none = ⊥
NamesParents true s (some t) =
    ((split t).0 ≡ (split s).0)
    × ((split t).1 ≡ parents (split s).1)
    × (length t + 1 ≡ length s + 1 + extra_chars s)

dotted-split :
    (s : List ℕ)
    → ((split (dotted s)).0 ≡ (split s).0)
      × ((split (dotted s)).1 ≡ parents (split s).1)
      × (length (dotted s) ≡ length s + extra_chars s)
unfolding dotted split parents extra_chars
dotted-split [] = (refl, refl, refl)
dotted-split (c ∷ []) = elim (Bool-cases (c == slash)) [
  | inl h ↦ ground (arith)
  | inr h ↦ ground (arith)
]
dotted-split (c ∷ x ∷ s) =
    let (f, r, n) = dotted-split (x ∷ s) in
    elim (Bool-cases (c == slash)) [
      | inl h ↦ elim (Bool-cases (x == slash)) [
        | inl p ↦ ground (arith, f, r, n)
        | inr p ↦ ground (arith, f, r, n)
      ]
      | inr h ↦ ground (arith, f, r, n)
    ]

-- `fn_AM2UN` of a string is NULL if there is no memory. Otherwise it is a string with the same
-- components between the separators, where `..` stands for each empty one but the first and the last;
-- with its NUL it is as long as the memory that was asked for.
pub am2un-NamesParents :
    (memory : Bool) (s : List ℕ) → NamesParents memory s (am2un memory (some s))
unfolding am2un
am2un-NamesParents false s = refl
am2un-NamesParents true s = let (f, r, n) = dotted-split s in (f, r, omega (arith, n))
