-- ===== src/Fn/Device.antt =====
-- The path behind a device name.
use anfs.Base.{
  ℕ, zero, suc, ◌-◌, ◌≡◌, refl, ap, ◌∙◌, sym, ◌⊎◌, inl, inr, true, false, Bool, List, [], ◌∷◌, ◌++◌,
  length, take, drop, Bytes, slice, ◌==◌, ltb, ◌&&◌, not, if◌then◌else◌, arith, Bool-cases, Option,
  some, none,
}
use anfs.Fn.{
  slash, colon, char_at, bstrchr, behind_found, behind_colon, without_trailing, b_path_without_dev,
}

abbrev no_colon : List ℕ → Bool
no_colon [] = true
no_colon (c ∷ s) = if c == colon then false else no_colon s

-- A path and whether it is absolute: what stands behind the first colon, or the whole string if it has
-- no colon
abbrev pub IsBehind : (s path : List ℕ) → (is_absolute : Bool) → Type 0
IsBehind s path true = (device : List ℕ) × (no_colon device ≡ true) × (s ≡ device ++ colon ∷ path)
IsBehind s path false = (path ≡ s) × (no_colon s ≡ true)

abbrev IsPathOf : (s : List ℕ) → Option (List ℕ) × Bool → Type 0
IsPathOf s (none, is_absolute) = (path : List ℕ) × IsBehind s path is_absolute
IsPathOf s (some result, is_absolute) =
    (path : List ℕ) × IsBehind s path is_absolute
    × ((path ≡ result) ⊎ (path ≡ result ++ slash ∷ []))

abbrev Found : List ℕ → Option (List ℕ) → Type 0
Found s none = no_colon s ≡ true
Found s (some rest) =
    (device : List ℕ) × (path : List ℕ) × (no_colon device ≡ true)
    × (rest ≡ colon ∷ path)
    × (s ≡ device ++ colon ∷ path)

found_behind :
    (c : ℕ) (s : List ℕ) (o : Option (List ℕ)) → (c == colon) ≡ false → Found s o → Found (c ∷ s) o
found_behind c s none h f = rw h f
found_behind c s (some rest) h (device, path, n, e, q) = (c ∷ device, path, rw h n, e, ap (◌∷◌ c) q)

bstrchr-Found : (s : List ℕ) → Found s (bstrchr s colon)
unfolding bstrchr
bstrchr-Found [] = refl
bstrchr-Found (c ∷ s) = elim (Bool-cases (c == colon)) [
  | inl h ↦ rw h ([], s, refl, ap (λ x. x ∷ s) (==→≡ c h), ap (λ x. x ∷ s) (==→≡ c h))
  | inr h ↦ rw h (found_behind c s (bstrchr s colon) h (bstrchr-Found s))
]
  where
    ==→≡ : (a : ℕ) → (a == colon) ≡ true → a ≡ colon
    ==→≡ a h = ground arith

of_found :
    (s : List ℕ) (o : Option (List ℕ))
    → Found s o
    → IsBehind s (behind_found s o).0 (behind_found s o).1
unfolding behind_found
of_found s none f = (refl, f)
of_found s (some rest) (device, path, n, r, q) =
    (device, n, q ∙ ap (λ x. device ++ colon ∷ drop 1 x) (sym r))

behind_colon-IsBehind : (s : List ℕ) → IsBehind s (behind_colon s).0 (behind_colon s).1
unfolding behind_colon
behind_colon-IsBehind s = of_found s (bstrchr s colon) (bstrchr-Found s)

last_char : (d : List ℕ) (n : ℕ) → length d ≡ suc n → d ≡ take n d ++ char_at d n ∷ []
last_char [] n h = absurd (ground arith)
last_char (c ∷ []) zero h = refl
last_char (c ∷ x ∷ d) zero h = absurd (ground arith)
last_char (c ∷ d) (suc n) h = ap (◌∷◌ c) (last_char d n (omega (arith, h)))

without_trailing-same_or :
    (d : List ℕ) → (d ≡ without_trailing d) ⊎ (d ≡ without_trailing d ++ slash ∷ [])
unfolding without_trailing
without_trailing-same_or d =
    elim (Bool-cases (
      ltb 1 (length d)
      && (char_at d (length d - 1) == slash)
      && not (char_at d (length d - 2) == slash))) [
        | inr h ↦ rw h (inl refl)
        | inl h ↦ rw h (
            inr (
              last_char d (length d - 1) (ground arith)
              ∙ ap (λ c. take (length d - 1) d ++ c ∷ []) (ground arith)))
      ]

-- `fn_BPathWithoutDev` gives what stands behind the first colon of the string, or the string if it has
-- no colon, and tells which; one `/` at the end may be taken off. It is NULL if there is no memory.
b_path_without_dev-IsPathOf :
    (memory : Bool) (bs : Bytes) → IsPathOf (slice bs 1 (bs 0)) (b_path_without_dev memory bs)
unfolding b_path_without_dev
b_path_without_dev-IsPathOf true bs =
    let s = slice bs 1 (bs 0) in
    ((behind_colon s).0, behind_colon-IsBehind s, without_trailing-same_or (behind_colon s).0)
b_path_without_dev-IsPathOf false bs =
    let s = slice bs 1 (bs 0) in ((behind_colon s).0, behind_colon-IsBehind s)
