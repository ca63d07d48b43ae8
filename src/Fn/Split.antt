-- ===== src/Fn/Split.antt =====
-- The components of a path: what stands between the separators.
use anfs.Base.{
  ℕ, ◌≡◌, refl, ap, inl, inr, true, false, List, [], ◌∷◌, ◌++◌, ◌==◌, ◌||◌, if◌then◌else◌, arith,
  Bool-cases, Bool,
}
use anfs.Fn.{slash}

-- The first component and the others
unfoldable pub split : List ℕ → List ℕ × List (List ℕ)
split [] = ([], [])
split (c ∷ s) =
    let (first, rest) = split s in if c == slash then ([], first ∷ rest) else (c ∷ first, rest)

-- `/` and a component, for every component
unfoldable pub slashed : List (List ℕ) → List ℕ
slashed [] = []
slashed (n ∷ ns) = slash ∷ n ++ slashed ns

-- The bytes of a string of C
abbrev pub no_nul : List ℕ → Bool
no_nul [] = true
no_nul (c ∷ s) = if c == 0 then false else no_nul s

-- The bytes of a component
abbrev pub plain : List ℕ → Bool
plain [] = true
plain (c ∷ s) = if c == 0 || c == slash then false else plain s

abbrev pub AllPlain : List (List ℕ) → Type 0
AllPlain [] = Unit
AllPlain (n ∷ ns) = (plain n ≡ true) × AllPlain ns

pub split-join : (s : List ℕ) → (split s).0 ++ slashed (split s).1 ≡ s
unfolding split slashed
split-join [] = refl
split-join (c ∷ s) = elim (Bool-cases (c == slash)) [
  | inl h ↦ rw h (ground (arith, split-join s))
  | inr h ↦ rw h (ap (◌∷◌ c) (split-join s))
]

pub split-AllPlain :
    (s : List ℕ) → no_nul s ≡ true → (plain (split s).0 ≡ true) × AllPlain (split s).1
unfolding split
split-AllPlain [] h = (refl, tt)
split-AllPlain (c ∷ s) h = elim (Bool-cases (c == 0)) [
  | inl z ↦ absurd (ground arith)
  | inr z ↦ elim (Bool-cases (c == slash)) [
    | inl e ↦ rw e (refl, split-AllPlain s (ground arith))
    | inr e ↦ rw (e, z, e) (split-AllPlain s (ground arith))
  ]
]
