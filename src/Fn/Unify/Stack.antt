-- ===== src/Fn/Unify/Stack.antt =====
-- The stack of names as the bytes that `fn_PathUnify` writes.
use anfs.Base.{
  ℕ, ◌≡◌, refl, ap, ◌∙◌, sym, true, false, Bool, List, [], ◌∷◌, ◌++◌, reverse, ◌==◌, arith,
}
use mathlib.Core.List.{append_assoc, reverse_aux, reverse-cons, reverse-append, reverse-reverse}
use anfs.Fn.{slash, char_at}
use anfs.Fn.Split.{plain}
use anfs.Fn.Unify.{is_empty, strip_last}
use anfs.Fn.Unify.Names.{joined}

-- A name on the stack: it is not empty, and has no separator in it.
abbrev pub is_name : List ℕ → Bool
is_name [] = false
is_name (c ∷ n) = plain (c ∷ n)

abbrev pub AllNames : List (List ℕ) → Type 0
AllNames [] = Unit
AllNames (n ∷ st) = (is_name n ≡ true) × AllNames st

-- The bytes between `d0` and `d` for a stack of names, the last one first
unfoldable pub rendered : List (List ℕ) → List ℕ
rendered [] = []
rendered (n ∷ []) = reverse n
rendered (n ∷ m ∷ st) = reverse n ++ slash ∷ rendered (m ∷ st)

strip_last-slash : (n s : List ℕ) → plain n ≡ true → strip_last (n ++ slash ∷ s) ≡ s
unfolding strip_last
strip_last-slash [] s h = refl
strip_last-slash (c ∷ n) s h = ground (arith, strip_last-slash n s)

strip_last-all : (n : List ℕ) → plain n ≡ true → strip_last n ≡ []
unfolding strip_last
strip_last-all [] h = refl
strip_last-all (c ∷ n) h = ground (arith, strip_last-all n)

plain-reverse_aux :
    (n m : List ℕ) → plain n ≡ true → plain m ≡ true → plain (reverse_aux n m) ≡ true
plain-reverse_aux [] m h k = k
plain-reverse_aux (c ∷ n) m h k = plain-reverse_aux n (c ∷ m) (ground arith) (ground arith)

plain-reverse : (n : List ℕ) → plain n ≡ true → plain (reverse n) ≡ true
plain-reverse n h = plain-reverse_aux n [] h refl

pub strip_last-rendered :
    (n : List ℕ) (st : List (List ℕ))
    → plain n ≡ true
    → strip_last (rendered (n ∷ st)) ≡ rendered st
unfolding rendered
strip_last-rendered n [] h = strip_last-all (reverse n) (plain-reverse n h)
strip_last-rendered n (m ∷ st) h =
    strip_last-slash (reverse n) (rendered (m ∷ st)) (plain-reverse n h)

pub reverse-rendered : (st : List (List ℕ)) → reverse (rendered st) ≡ joined st
unfolding rendered joined
reverse-rendered [] = refl
reverse-rendered (n ∷ []) = reverse-reverse n
reverse-rendered (n ∷ m ∷ st) =
    reverse-append (reverse n) (slash ∷ rendered (m ∷ st))
    ∙ rw (reverse-cons slash (rendered (m ∷ st)), reverse-rendered (m ∷ st), reverse-reverse n)
        (append_assoc (joined (m ∷ st)) (slash ∷ []) n)

is_empty-reverse_aux : (n : List ℕ) (c : ℕ) (m : List ℕ) → is_empty (reverse_aux n (c ∷ m)) ≡ false
is_empty-reverse_aux [] c m = refl
is_empty-reverse_aux (x ∷ n) c m = is_empty-reverse_aux n x (c ∷ m)

is_empty-append : (n m : List ℕ) → is_empty n ≡ false → is_empty (n ++ m) ≡ false
is_empty-append [] m h = absurd (ground arith)
is_empty-append (c ∷ n) m h = refl

is_empty-reverse : (n : List ℕ) → is_name n ≡ true → is_empty (reverse n) ≡ false
is_empty-reverse [] h = absurd (ground arith)
is_empty-reverse (c ∷ n) h = is_empty-reverse_aux n c []

pub is_empty-rendered :
    (n : List ℕ) (st : List (List ℕ)) → is_name n ≡ true → is_empty (rendered (n ∷ st)) ≡ false
unfolding rendered
is_empty-rendered n [] h = is_empty-reverse n h
is_empty-rendered n (m ∷ st) h = is_empty-append (reverse n) _ (is_empty-reverse n h)

-- A byte that is written at the end of the name on top
pub rendered-push :
    (n : List ℕ) (c : ℕ) (st : List (List ℕ))
    → c ∷ rendered (n ∷ st) ≡ rendered ((n ++ c ∷ []) ∷ st)
unfolding rendered
rendered-push n c [] = sym (reverse-append n (c ∷ []))
rendered-push n c (m ∷ st) = rw (reverse-append n (c ∷ [])) refl

joined-head :
    (n : List ℕ) (st : List (List ℕ))
    → AllNames (n ∷ st)
    → (c : ℕ) × (s : List ℕ) × ((c == slash) ≡ false) × (joined (n ∷ st) ≡ c ∷ s)
unfolding joined
joined-head [] st a = absurd (ground arith)
joined-head (c ∷ n) [] a = (c, n, ground arith, refl)
joined-head (c ∷ n) (m ∷ st) a =
    let (x, s, h, e) = joined-head m st a.1 in
    (x, s ++ slash ∷ c ∷ n, h, ap (λ y. y ++ slash ∷ c ∷ n) e)

pub joined-no_slash : (st : List (List ℕ)) → AllNames st → (char_at (joined st) 0 == slash) ≡ false
unfolding joined
joined-no_slash [] a = refl
joined-no_slash (n ∷ st) a = let (c, s, h, e) = joined-head n st a in rw e h
