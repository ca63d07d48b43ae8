-- ===== src/Fthash/Lists.antt =====
-- The number of entries in the lists of a table, through the operations on lists.
use anfs.Base.{
  ℕ, zero, suc, ◌+◌, ◌<◌, ◌≡◌, refl, List, [], ◌∷◌, ◌++◌, length, take, drop, length-append,
  length-take, length-drop, arith,
}
use anfs.Fthash.{list_at, set_list, empty_lists}

module _ {ℓ} {A : Type ℓ} where
  abbrev pub total : List (List A) → ℕ
  total [] = 0
  total (l ∷ ls) = length l + total ls

  pub total-append : (ls ms : List (List A)) → total (ls ++ ms) ≡ total ls + total ms
  total-append [] ms = omega arith
  total-append (l ∷ ls) ms = omega (arith, total-append ls ms)

  total-take-drop : (n : ℕ) (ls : List (List A)) → total (take n ls) + total (drop n ls) ≡ total ls
  total-take-drop zero ls = omega arith
  total-take-drop (suc n) [] = omega arith
  total-take-drop (suc n) (l ∷ ls) = omega (arith, total-take-drop n ls)

  -- Two parts, in either order
  pub total-rotate : (n : ℕ) (ls : List (List A)) → total (drop n ls ++ take n ls) ≡ total ls
  total-rotate n ls = omega (arith, total-append (drop n ls) (take n ls), total-take-drop n ls)

  pub length-rotate : (n : ℕ) (ls : List A) → length (drop n ls ++ take n ls) ≡ length ls
  length-rotate n ls =
      omega (arith, length-append (drop n ls) (take n ls), length-take n ls, length-drop n ls)

  pub total-set_list :
      (i : ℕ) (new : List A) (ls : List (List A))
      → i < length ls
      → total (set_list i new ls) + length (list_at i ls) ≡ total ls + length new
  total-set_list i new [] h = absurd (omega arith)
  total-set_list zero new (l ∷ ls) h = omega arith
  total-set_list (suc i) new (l ∷ ls) h = omega (arith, total-set_list i new ls (omega arith))

  pub length-set_list :
      (i : ℕ) (new : List A) (ls : List (List A)) → length (set_list i new ls) ≡ length ls
  length-set_list i new [] = refl
  length-set_list zero new (l ∷ ls) = refl
  length-set_list (suc i) new (l ∷ ls) = omega (arith, length-set_list i new ls)

  pub list_at-set_list :
      (i : ℕ) (new : List A) (ls : List (List A))
      → i < length ls
      → list_at i (set_list i new ls) ≡ new
  list_at-set_list i new [] h = absurd (omega arith)
  list_at-set_list zero new (l ∷ ls) h = refl
  list_at-set_list (suc i) new (l ∷ ls) h = list_at-set_list i new ls (omega arith)

pub total-empty_lists {ℓ} : (A : Type ℓ) (n : ℕ) → total (empty_lists {A = A} n) ≡ 0
total-empty_lists A zero = refl
total-empty_lists A (suc n) = omega (arith, total-empty_lists A n)

pub length-empty_lists {ℓ} : (A : Type ℓ) (n : ℕ) → length (empty_lists {A = A} n) ≡ n
length-empty_lists A zero = refl
length-empty_lists A (suc n) = omega (arith, length-empty_lists A n)
