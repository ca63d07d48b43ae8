-- ===== src/Fn.antt =====
-- src/fn.c, names and paths. A string of C is the list of its bytes without the NUL at its end; reading
-- behind the list gives 0. What `AllocVec` gives is a flag.
pub mod Split
pub mod Parent
pub mod Scanning
pub mod Device
pub mod Tests
pub mod Unify
use anfs.Base.{
  ℕ, zero, suc, ◌+◌, ◌-◌, Bool, true, false, ◌&&◌, ◌||◌, not, Option, none, some, List, [], ◌∷◌,
  length, take, drop, Bytes, slice, ◌==◌, ltb, if◌then◌else◌,
}
use anfs.Nfssupp.{IoErr}

abbrev pub slash : ℕ
slash = 47

abbrev pub dot : ℕ
dot = 46

abbrev pub colon : ℕ
colon = 58

-- `s[i]`
abbrev pub char_at : List ℕ → ℕ → ℕ
char_at [] i = 0
char_at (c ∷ s) zero = c
char_at (c ∷ s) (suc i) = char_at s i

-- `s[i] = c`, inside of the string
abbrev pub set_char : List ℕ → ℕ → ℕ → List ℕ
set_char [] i c = []
set_char (x ∷ s) zero c = c ∷ s
set_char (x ∷ s) (suc i) c = x ∷ set_char s i c

-- The first loop of `fn_AM2UN`: `ecnt`
unfoldable pub extra_chars : List ℕ → ℕ
extra_chars [] = 0
extra_chars (c ∷ s) = (if c == slash && char_at s 0 == slash then 2 else 0) + extra_chars s

-- The second loop of `fn_AM2UN`: what it writes
unfoldable pub dotted : List ℕ → List ℕ
dotted [] = []
dotted (c ∷ s) =
    let written = dotted s in
    if c == slash && char_at s 0 == slash then c ∷ dot ∷ dot ∷ written else c ∷ written

-- `fn_AM2UN`; NULL is `none`.
unfoldable pub am2un : (memory : Bool) → Option (List ℕ) → Option (List ℕ)
unfolding dotted
am2un memory none = none
am2un false (some s) = none
am2un true (some s) = some (dotted s)

-- `bstrchr`, of the bytes of the string: the string from the character on
unfoldable pub bstrchr : List ℕ → (c : ℕ) → Option (List ℕ)
bstrchr [] c = none
bstrchr (x ∷ s) c = if x == c then some (x ∷ s) else bstrchr s c

-- `fn_B2CStr`, with the length
unfoldable pub b2c_str : (memory : Bool) → Bytes → Option (List ℕ) × ℕ
unfolding slice
b2c_str memory bs = (if memory then some (slice bs 1 (bs 0)) else none, bs 0)

-- What follows the search for the colon: the path behind it and `*IsAbsolute`
unfoldable pub behind_found : List ℕ → (found : Option (List ℕ)) → List ℕ × Bool
behind_found s none = (s, false)
behind_found s (some found) = (drop 1 found, true)

-- The path behind the device
unfoldable pub behind_colon : List ℕ → List ℕ × Bool
unfolding bstrchr behind_found
behind_colon s = behind_found s (bstrchr s colon)

-- The removal of one `/` at the end in `fn_BPathWithoutDev`
unfoldable pub without_trailing : List ℕ → List ℕ
without_trailing d =
    let l = length d in
    if ltb 1 l && (char_at d (l - 1) == slash) && not (char_at d (l - 2) == slash)
    then take (l - 1) d
    else d

-- `fn_BPathWithoutDev` with `*IsAbsolute`; `none` is NULL, with ERROR_NO_FREE_STORE.
unfoldable pub b_path_without_dev : (memory : Bool) → Bytes → Option (List ℕ) × Bool
unfolding slice behind_colon without_trailing
b_path_without_dev memory bs =
    let (path, is_absolute) = behind_colon (slice bs 1 (bs 0)) in
    (if memory then some (without_trailing path) else none, is_absolute)

-- `fn_PathWithoutDev` with `*IsAbsolute`; `none` as above
unfoldable pub path_without_dev : (memory : Bool) → List ℕ → Option (List ℕ) × Bool
unfolding behind_colon
path_without_dev memory ss =
    let (path, is_absolute) = behind_colon ss in (if memory then some path else none, is_absolute)

-- The string in memory, `*PosP` and `*LastElement`
pub record Scan : Type 0 where
  pub a_path : List ℕ
  pub pos : ℕ
  pub last_element : Bool

-- The loop of `fn_ScanPath`: how far it is to the next `/` or the end of the string
unfoldable pub to_separator : List ℕ → ℕ
to_separator [] = 0
to_separator (c ∷ s) = let rest = to_separator s in if c == 0 || c == slash then 0 else suc rest

-- The first part of `fn_ScanPath`: the path with the `/` that the last call took out
unfoldable pub restored : Scan → List ℕ
restored t = if t.pos == 0 then t.a_path else set_char t.a_path (t.pos - 1) slash

-- The second part of `fn_ScanPath`, from `Pos` on
unfoldable pub scan_from : (path : List ℕ) → Scan → Scan
unfolding to_separator
scan_from path t =
    let e = t.pos + to_separator (drop t.pos path) in
    if char_at path e == 0
    then record t { a_path = path; last_element = true }
    else record t { a_path = if e == t.pos then path else set_char path e 0; pos = e + 1 }

-- `fn_ScanPath`; the pointer that it returns is the index in the string.
unfoldable pub scan_path : Scan → ℕ × Scan
unfolding restored scan_from
scan_path t = (t.pos, scan_from (restored t) t)

-- The string of C at an index
unfoldable pub c_str : List ℕ → List ℕ
c_str [] = []
c_str (c ∷ s) = let rest = c_str s in if c == 0 then [] else c ∷ rest
