-- ===== src/Fn/Scanning.antt =====
-- The calls of `fn_ScanPath` on a path, one after the other.
use anfs.Base.{
  ℕ, suc, ◌+◌, ◌-◌, ◌≡◌, refl, ap, ◌∙◌, true, false, List, [], ◌∷◌, ◌++◌, length, drop, ◌==◌,
  if◌then◌else◌, arith,
}
use native.Mathlib.Numerals.{add-one}
use anfs.Fn.{slash, char_at, set_char, Scan, to_separator, restored, scan_from}
use anfs.Fn.Split.{plain}

pub char_at_behind : (pre s : List ℕ) (i : ℕ) → char_at (pre ++ s) (length pre + i) ≡ char_at s i
char_at_behind [] s i = ground arith
char_at_behind (c ∷ pre) s i = ground (arith, char_at_behind pre s i)

pub char_at_start : (pre s : List ℕ) → char_at (pre ++ s) (length pre) ≡ char_at s 0
char_at_start [] s = refl
char_at_start (c ∷ pre) s = char_at_start pre s

pub drop_behind : (pre s : List ℕ) → drop (length pre) (pre ++ s) ≡ s
drop_behind [] s = refl
drop_behind (c ∷ pre) s = drop_behind pre s

set_char_behind :
    (pre : List ℕ) (x : ℕ) (s : List ℕ) (c : ℕ)
    → set_char (pre ++ x ∷ s) (length pre) c ≡ pre ++ c ∷ s
set_char_behind [] x s c = refl
set_char_behind (y ∷ pre) x s c = rw (set_char_behind pre x s c)

set_char_append :
    (pre s : List ℕ) (i c : ℕ) → set_char (pre ++ s) (length pre + i) c ≡ pre ++ set_char s i c
set_char_append [] s i c = ground arith
set_char_append (x ∷ pre) s i c = ground (arith, set_char_append pre s i c)

to_separator-slash : (n s : List ℕ) → plain n ≡ true → to_separator (n ++ slash ∷ s) ≡ length n
unfolding to_separator
to_separator-slash [] s h = refl
to_separator-slash (c ∷ n) s h = ground (arith, to_separator-slash n s)

to_separator_end : (n : List ℕ) → plain n ≡ true → to_separator n ≡ length n
unfolding to_separator
to_separator_end [] h = refl
to_separator_end (c ∷ n) h = ground (arith, to_separator_end n)

char_at-slash : (n s : List ℕ) → char_at (n ++ slash ∷ s) (length n) ≡ slash
char_at-slash [] s = refl
char_at-slash (c ∷ n) s = char_at-slash n s

char_at_end : (n : List ℕ) → char_at n (length n) ≡ 0
char_at_end [] = refl
char_at_end (c ∷ n) = char_at_end n

-- What stands behind a component after the call: the end of the string, or `/` if it is empty
abbrev pub mark : List ℕ → ℕ
mark [] = slash
mark (c ∷ n) = 0

scan_from_at :
    (path : List ℕ) (t : Scan) (k : ℕ)
    → to_separator (drop t.pos path) ≡ k
    → char_at path (t.pos + k) ≡ slash
    → scan_from path t ≡ record t {
      a_path = if k == 0 then path else set_char path (t.pos + k) 0;
      pos = t.pos + k + 1;
    }
unfolding scan_from
scan_from_at path t k e h = ground arith

pub suc_positive : (k : ℕ) → (suc k == 0) ≡ false
suc_positive k = ground arith

suc_minus : (k : ℕ) → suc k - 1 ≡ k
suc_minus k = omega arith

marked :
    (pre n s : List ℕ)
    → (if length n == 0
        then pre ++ (n ++ slash ∷ s)
        else set_char (pre ++ (n ++ slash ∷ s)) (length pre + length n) 0)
      ≡ pre ++ (n ++ mark n ∷ s)
marked pre [] s = refl
marked pre (c ∷ n) s = rw (suc_positive (length n)) (
    set_char_append pre (c ∷ n ++ slash ∷ s) (length (c ∷ n)) 0
    ∙ ap (λ x. pre ++ x) (set_char_behind (c ∷ n) slash s 0))

pub scan_from-slash :
    (pre n s : List ℕ) (t : Scan)
    → t.pos ≡ length pre
    → plain n ≡ true
    → scan_from (pre ++ (n ++ slash ∷ s)) t
      ≡ record t { a_path = pre ++ (n ++ mark n ∷ s); pos = length pre + length n + 1 }
scan_from-slash pre n s t e h =
    let far : to_separator (drop t.pos (pre ++ (n ++ slash ∷ s))) ≡ length n =
      rw (e, drop_behind pre (n ++ slash ∷ s)) (to_separator-slash n s h) in
    let ends : char_at (pre ++ (n ++ slash ∷ s)) (t.pos + length n) ≡ slash =
      rw (e, char_at_behind pre (n ++ slash ∷ s) (length n)) (char_at-slash n s) in
    scan_from_at (pre ++ (n ++ slash ∷ s)) t (length n) far ends ∙ rw e (rw (marked pre n s) refl)

pub scan_from_end :
    (pre n : List ℕ) (t : Scan)
    → t.pos ≡ length pre
    → plain n ≡ true
    → scan_from (pre ++ n) t ≡ record t { a_path = pre ++ n; last_element = true }
unfolding scan_from
scan_from_end pre n t e h =
    rw (e, drop_behind pre n, to_separator_end n h, char_at_behind pre n (length n), char_at_end n)
      refl

pub restored_behind :
    (t : Scan) (pre : List ℕ) (x : ℕ) (s : List ℕ)
    → t.a_path ≡ pre ++ x ∷ s
    → t.pos ≡ length pre + 1
    → restored t ≡ pre ++ slash ∷ s
unfolding restored
restored_behind t pre x s a p =
    rw (p, a, add-one (length pre), suc_positive (length pre), suc_minus (length pre))
      (set_char_behind pre x s slash)
