-- ===== src/Filesys/Protect.antt =====
-- The state machine of the write protection.
use anfs.Base.{
  ℕ, ◌≡◌, refl, ap, ◌∙◌, inl, inr, Bool, true, false, List, [], ◌∷◌, arith, ◌==◌, if◌then◌else◌,
  Bool-cases,
}
use anfs.Filesys.{Protection, dostrue, act_write_protect}

-- A sequence of requests, each with its flag and its key
abbrev pub requests : List (Bool × ℕ) → Protection → Protection
requests [] g = g
requests ((do_lock, key) ∷ rest) g = requests rest (act_write_protect do_lock key g).1

-- The requests that are made hold no unlock with the key.
abbrev pub no_unlock : (key : ℕ) → List (Bool × ℕ) → Bool
no_unlock key [] = true
no_unlock key ((true, k) ∷ rest) = no_unlock key rest
no_unlock key ((false, k) ∷ rest) = if k == key then false else no_unlock key rest

requests-held :
    (key : ℕ) (rs : List (Bool × ℕ))
    → no_unlock key rs ≡ true
    → requests rs (record { is_write_protected = true; lock_key = key })
      ≡ record { is_write_protected = true; lock_key = key }
unfolding act_write_protect
requests-held key [] h = refl
requests-held key ((true, k) ∷ rest) h = requests-held key rest h
requests-held key ((false, k) ∷ rest) h = elim (Bool-cases (k == key)) [
  | inl same ↦ absurd (ground arith)
  | inr other ↦ rw other (requests-held key rest (ground arith))
]

with_key :
    (key : ℕ)
    → act_write_protect false key (record { is_write_protected = true; lock_key = key })
      ≡ (dostrue, record { is_write_protected = false; lock_key = key })
unfolding act_write_protect
with_key key = ground arith

-- Once the volume is protected with a key, it stays protected with this key through every sequence of
-- requests that has no unlock with the key; and then an unlock with the key succeeds and takes the
-- protection away.
pub act_write_protect-held :
    (key : ℕ) (rs : List (Bool × ℕ))
    → no_unlock key rs ≡ true
    → (requests rs (record { is_write_protected = true; lock_key = key })
        ≡ record { is_write_protected = true; lock_key = key })
      × (act_write_protect false key
            (requests rs (record { is_write_protected = true; lock_key = key }))
          ≡ (dostrue, record { is_write_protected = false; lock_key = key }))
act_write_protect-held key rs h =
    let held = requests-held key rs h in
    (held, ap (act_write_protect false key) held ∙ with_key key)
