-- ===== src/Fn/Unify/Names.antt =====
-- What `fn_PathUnify` is to give, by the names in the path.
use anfs.Base.{ℕ, Bool, true, false, ◌&&◌, ◌||◌, not, List, [], ◌∷◌, ◌++◌, ◌≡◌, ◌==◌, if◌then◌else◌}
use anfs.Nfssupp.{IoErr}
use anfs.Fn.{slash, dot}
use anfs.Fn.Unify.{Unified, unified, refused}

-- `.` and `..`
abbrev pub is_here : List ℕ → Bool
is_here [] = false
is_here (c ∷ []) = c == dot
is_here (c ∷ x ∷ n) = false

abbrev pub is_parent : List ℕ → Bool
is_parent [] = false
is_parent (c ∷ []) = false
is_parent (c ∷ x ∷ []) = c == dot && x == dot
is_parent (c ∷ x ∷ y ∷ n) = false

abbrev pub ends_in_dot : List ℕ → Bool
ends_in_dot [] = false
ends_in_dot (c ∷ []) = c == dot
ends_in_dot (c ∷ x ∷ n) = ends_in_dot (x ∷ n)

-- A component that does not end in a dot, or is `.` or `..`
abbrev pub regular : List ℕ → Bool
regular n = is_here n || (is_parent n || not (ends_in_dot n))

abbrev pub AllRegular : List (List ℕ) → Type 0
AllRegular [] = Unit
AllRegular (n ∷ ns) = (regular n ≡ true) × AllRegular ns

-- The path of a stack of names, the last one on top
unfoldable pub joined : List (List ℕ) → List ℕ
joined [] = []
joined (n ∷ []) = n
joined (n ∷ m ∷ st) = joined (m ∷ st) ++ slash ∷ n

-- The names in order: an empty one, but the last, and `..` take the name on top off, `.` is skipped,
-- another is put on the stack. The first component of a path is not empty here.
unfoldable pub resolve : (st : List (List ℕ)) → (stripped : Bool) → List (List ℕ) → Unified
unfolding joined
resolve st stripped [] = unified (joined st) stripped
resolve st stripped ([] ∷ []) = unified (joined st) stripped
resolve [] stripped ([] ∷ m ∷ ns) = refused IoErr.error_invalid_component_name
resolve (top ∷ st) stripped ([] ∷ m ∷ ns) = resolve st true (m ∷ ns)
resolve [] stripped ((c ∷ n) ∷ ns) =
    let skip = resolve [] stripped ns in
    let push = resolve ((c ∷ n) ∷ []) stripped ns in
    if is_here (c ∷ n)
    then skip
    else (if is_parent (c ∷ n) then refused IoErr.error_invalid_component_name else push)
resolve (top ∷ st) stripped ((c ∷ n) ∷ ns) =
    let skip = resolve (top ∷ st) stripped ns in
    let pop = resolve st stripped ns in
    let push = resolve ((c ∷ n) ∷ top ∷ st) stripped ns in
    if is_here (c ∷ n) then skip else (if is_parent (c ∷ n) then pop else push)

-- A path by its names: one that starts with a separator or with `..` is illegal.
unfoldable pub resolve_path : (first : List ℕ) → (rest : List (List ℕ)) → Unified
unfolding resolve
resolve_path [] (m ∷ ns) = refused IoErr.error_object_not_found
resolve_path [] [] = resolve [] false ([] ∷ [])
resolve_path (c ∷ n) ns =
    let all = resolve [] false ((c ∷ n) ∷ ns) in
    if is_parent (c ∷ n) then refused IoErr.error_object_not_found else all
