-- ===== src/Fn/Tests.antt =====
-- Runs on paths, and the theorems at some of them.
use anfs.Base.{ℕ, zero, suc, ◌≡◌, refl, some, List, [], ◌∷◌, true, false, Bytes}
use anfs.Nfssupp.{IoErr}
use anfs.Fn.{
  slash, dot, colon, am2un, b2c_str, b_path_without_dev, path_without_dev, Scan, scan_path,
}
use anfs.Fn.Split.{split}
use anfs.Fn.Parent.{NamesParents, am2un-NamesParents}
use anfs.Fn.Unify.{unified, refused, path_unify}
use anfs.Fn.Unify.Names.{resolve_path}
use anfs.Fn.Unify.Fits.{Fits, path_unify-Fits}
use anfs.Fn.Unify.Laws.{path_unify-resolve_path}

-- The letters `a`, `b` and `c`
abbrev a : ℕ
a = 97

abbrev b : ℕ
b = 98

abbrev c : ℕ
c = 99

-- `a/b//c/./..`
abbrev long_path : List ℕ
long_path = a ∷ slash ∷ b ∷ slash ∷ slash ∷ c ∷ slash ∷ dot ∷ slash ∷ dot ∷ dot ∷ []

unifies : path_unify true long_path ≡ unified (a ∷ []) true
unfolding path_unify
unifies = refl

unifies_too_far :
    path_unify true (a ∷ slash ∷ slash ∷ slash ∷ b ∷ [])
    ≡ refused IoErr.error_invalid_component_name
unfolding path_unify
unifies_too_far = refl

-- The dot at the end of a name is lost: `a.` becomes `a`, and `...` becomes `..`.
unifies_dot : path_unify true (a ∷ dot ∷ slash ∷ b ∷ []) ≡ unified (a ∷ slash ∷ b ∷ []) false
unfolding path_unify
unifies_dot = refl

unifies_dots : path_unify true (dot ∷ dot ∷ dot ∷ []) ≡ unified (dot ∷ dot ∷ []) false
unfolding path_unify
unifies_dots = refl

-- `a//b` and `/a/` for Unix
to_unix :
    am2un true (some (a ∷ slash ∷ slash ∷ b ∷ [])) ≡ some (a ∷ slash ∷ dot ∷ dot ∷ slash ∷ b ∷ [])
unfolding am2un
to_unix = refl

-- `b:a/` as a string of BCPL
abbrev b_string : Bytes
b_string zero = 4
b_string (suc zero) = b
b_string (suc (suc zero)) = colon
b_string (suc (suc (suc zero))) = a
b_string (suc (suc (suc (suc k)))) = slash

without_dev : b_path_without_dev true b_string ≡ (some (a ∷ []), true)
unfolding b_path_without_dev
without_dev = refl

c_path : path_without_dev true (b ∷ colon ∷ a ∷ slash ∷ []) ≡ (some (a ∷ slash ∷ []), true)
unfolding path_without_dev
c_path = refl

c_string : b2c_str true b_string ≡ (some (b ∷ colon ∷ a ∷ slash ∷ []), 4)
unfolding b2c_str
c_string = refl

-- The second call restores the separator that the first one took out.
abbrev scanned : Scan
scanned = record { a_path = a ∷ slash ∷ b ∷ []; pos = 0; last_element = false }

scans : scan_path scanned ≡ (0, record { a_path = a ∷ 0 ∷ b ∷ []; pos = 2; last_element = false })
unfolding scan_path
scans = refl

scans_on :
    scan_path (record { a_path = a ∷ 0 ∷ b ∷ []; pos = 2; last_element = false })
    ≡ (2, record { a_path = a ∷ slash ∷ b ∷ []; pos = 2; last_element = true })
unfolding scan_path
scans_on = refl

am2un-NamesParents_example : NamesParents true long_path (am2un true (some long_path))
am2un-NamesParents_example = am2un-NamesParents true long_path

path_unify-Fits_example : Fits 11 (path_unify true long_path)
path_unify-Fits_example = path_unify-Fits true long_path

path_unify-resolve_path_example :
    path_unify true long_path
    ≡ resolve_path (a ∷ []) ((b ∷ []) ∷ [] ∷ (c ∷ []) ∷ (dot ∷ []) ∷ (dot ∷ dot ∷ []) ∷ [])
unfolding split
path_unify-resolve_path_example =
    path_unify-resolve_path long_path refl (refl, (refl, (refl, (refl, (refl, (refl, tt))))))
