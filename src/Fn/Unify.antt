-- ===== src/Fn/Unify.antt =====
-- `fn_PathUnify` of src/fn.c. The loop runs on fuel. What is left of `ss` is a list, so `l` is its
-- length; `d` holds the bytes between `d0` and the pointer `d`, the last one first.
pub mod Names
pub mod Stack
pub mod Rounds
pub mod Chars
pub mod Loop
pub mod Laws
pub mod Fits
use anfs.Base.{
  ℕ, zero, suc, ◌+◌, Bool, true, false, ◌&&◌, ◌||◌, not, Option, none, some, List, [], ◌∷◌, length,
  drop, reverse, ◌==◌, if◌then◌else◌,
}
use anfs.Nfssupp.{IoErr}
use anfs.Fn.{slash, dot, char_at}

-- The new string with `*StrippedDirs`, or NULL with `*Res2`. `stuck`: the fuel was too little.
pub data Unified : Type 0 where
  unified : List ℕ → (stripped_dirs : Bool) → Unified
  refused : IoErr → Unified
  stuck : Unified

pub record Unifying : Type 0 where
  pub s : List ℕ
  pub d : List ℕ
  pub add_sep : Bool
  pub stripped_dirs : Bool

-- `d` is `d0`.
abbrev pub is_empty : List ℕ → Bool
is_empty [] = true
is_empty (c ∷ s) = false

-- The end of the string or a `/`, where `c` is the next byte
abbrev pub ends_name : (c : ℕ) → Bool
ends_name c = c == 0 || c == slash

-- `..` in front, of which both tests for an illegal path consist
abbrev pub starts_with_parent : List ℕ → Bool
starts_with_parent s = char_at s 0 == dot && (char_at s 1 == dot && ends_name (char_at s 2))

-- `d--` and the loop that removes the last directory
unfoldable pub strip_last : List ℕ → List ℕ
strip_last [] = []
strip_last (x ∷ d) = let rest = strip_last d in if x == slash then d else rest

-- The loop over `//` with what is left of the string and of the directories; `none`: no directory is
-- left to strip.
unfoldable pub strip_slashes : (s d : List ℕ) → Option (List ℕ × List ℕ)
unfolding strip_last
strip_slashes [] d = some ([], d)
strip_slashes (c ∷ s) d =
    let rest = strip_slashes s (strip_last d) in
    if c == slash then (if is_empty d then none else rest) else some (c ∷ s, d)

-- What follows the loop over `//`
unfoldable pub slashes_stripped : Unifying → Option (List ℕ × List ℕ) → Option Unifying
slashes_stripped t none = none
slashes_stripped t (some (s, d)) =
    some (record t { s = slash ∷ s; d = d; add_sep = true; stripped_dirs = true })

-- A round of the loop at a `/` that is taken off `s`; `none`: no directory is left to strip.
unfoldable pub at_slash : Unifying → Option Unifying
unfolding slashes_stripped strip_slashes strip_last
at_slash t =
    if is_empty t.s
    then some t
    else (if char_at t.s 0 == slash
        then slashes_stripped t (strip_slashes t.s t.d)
        else (if char_at t.s 0 == dot && ends_name (char_at t.s 1)
            then some (record t { s = drop 1 t.s })
            else (if starts_with_parent t.s
                then (if is_empty t.d
                    then none
                    else some (record t { s = drop 2 t.s; d = strip_last t.d; add_sep = true }))
                else some (record t { add_sep = true }))))

-- The round at another byte, taken off `s`
unfoldable pub at_char : (c : ℕ) → Unifying → Unifying
at_char c t = if c == dot && ends_name (char_at t.s 0) then t else record t {
  d = c ∷ (if t.add_sep && not (is_empty t.d) then slash ∷ t.d else t.d);
  add_sep = false;
}

-- What follows the loop, with `s` at the end of the string
unfoldable pub unify_end : Unifying → Unified
unify_end t =
    let path = reverse t.d in
    if char_at path 0 == slash || starts_with_parent t.s
    then refused IoErr.error_object_not_found
    else unified path t.stripped_dirs

-- The loop
unfoldable pub unify_loop : (fuel : ℕ) → Unifying → Unified
unfolding at_slash at_char unify_end
unify_loop zero t = stuck
unify_loop (suc fuel) t = elim t.s [
  | [] ↦ unify_end t
  | c ∷ s ↦
      if c == slash
      then (elim (at_slash (record t { s = s })) [
        | none ↦ refused IoErr.error_invalid_component_name
        | some t' ↦ unify_loop fuel t'
      ])
      else unify_loop fuel (at_char c (record t { s = s }))
]

-- `fn_PathUnify`; `*Len` is the length of the new string.
unfoldable pub path_unify : (memory : Bool) → (ss : List ℕ) → Unified
unfolding unify_loop
path_unify memory ss =
    if char_at ss 0 == slash || starts_with_parent ss
    then refused IoErr.error_object_not_found
    else (if memory
        then unify_loop (length ss + 1)
            (record { s = ss; d = []; add_sep = false; stripped_dirs = false })
        else refused IoErr.error_no_free_store)
