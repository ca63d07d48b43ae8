-- ===== src/Lock/Walk.antt =====
-- `RootLocateDir` goes down by the components of the path.
use anfs.Base.{
  ℕ, zero, suc, ◌+◌, ◌<◌, ◌≤◌, ◌≡◌, refl, ap, ◌∙◌, sym, true, false, List, [], ◌∷◌, ◌++◌, length,
  ◌==◌, if◌then◌else◌, arith, fun_ext, length-append,
}
use mathlib.Core.List.{append_assoc, append-nil}
use anfs.Fn.{slash, Scan, restored, scan_from, scan_path, c_str}
use anfs.Fn.Split.{split, slashed, split-join, no_nul, plain, AllPlain, split-AllPlain}
use anfs.Fn.Scanning.{
  suc_positive, drop_behind, char_at_start, scan_from-slash, scan_from_end, restored_behind,
}
use anfs.Lock.{Directories, Found, Located, entered, by_type, locate, root_locate_dir}

c_str-plain : (n s : List ℕ) → plain n ≡ true → c_str (n ++ 0 ∷ s) ≡ n
unfolding c_str
c_str-plain [] s h = refl
c_str-plain (c ∷ n) s h = ground (arith, c_str-plain n s)

length-slashed : (ns : List (List ℕ)) → length ns ≤ length (slashed ns)
unfolding slashed
length-slashed [] = omega arith
length-slashed (n ∷ ns) = omega (arith, length-slashed ns, length-append n (slashed ns))

module _ {W D E : Type 0} (dirs : Directories W D E) where
  -- The walk by the components: `n` is the next one and `ns` are those behind it. The last one is
  -- not looked up, and an empty one, a reference to the parent, ends the walk where it is.
  unfoldable pub walk : W → D → (n : List ℕ) → (ns : List (List ℕ)) → Located W D
  unfolding by_type
  walk w d n [] = Located.at_dir w d
  walk w d [] (m ∷ ns) = Located.at_dir w d
  walk w d (c ∷ n) (m ∷ ns) =
      by_type dirs (λ v e. walk v e m ns) (c ∷ n) (dirs.get_name_entry w d (c ∷ n))

  locate-walk :
      (fuel : ℕ) (w : W) (d : D) (pre n : List ℕ) (ns : List (List ℕ)) (t : Scan)
      → length ns < fuel
      → t.last_element ≡ false
      → t.pos ≡ length pre
      → restored t ≡ pre ++ (n ++ slashed ns)
      → plain n ≡ true
      → AllPlain ns
      → locate dirs fuel w d t ≡ walk w d n ns
  unfolding locate walk slashed scan_path
  locate-walk zero w d pre n ns t f l e r p ps = absurd (omega arith)
  locate-walk (suc fuel) w d pre n [] t f l e r p ps =
      let ends : scan_from (restored t) t ≡ record t { a_path = pre ++ n; last_element = true } =
        ap (λ x. scan_from x t) (r ∙ ap (λ x. pre ++ x) (append-nil n))
        ∙ scan_from_end pre n t e p in
      rw ends refl
  locate-walk (suc fuel) w d pre [] (m ∷ ns) t f l e r p ps =
      let next = ap (λ x. scan_from x t) r ∙ scan_from-slash pre [] (m ++ slashed ns) t e p in
      rw (next, l, e, char_at_start pre (slash ∷ m ++ slashed ns)) refl
  locate-walk (suc fuel) w d pre (c ∷ n) (m ∷ ns) t f l e r p ps =
      let next = ap (λ x. scan_from x t) r ∙ scan_from-slash pre (c ∷ n) (m ++ slashed ns) t e p in
      let text = (c ∷ n) ++ (0 ∷ (m ++ slashed ns)) in
      let t1 : Scan = record {
        a_path = pre ++ text;
        pos = length pre + length (c ∷ n) + 1;
        last_element = false;
      } in
      let again = fun_ext (λ v. fun_ext (λ d'.
        locate-walk fuel v d' (pre ++ (c ∷ n) ++ slash ∷ []) m ns t1 (omega arith) refl
          (omega (arith, length-append (pre ++ (c ∷ n)) (slash ∷ []), length-append pre (c ∷ n)))
          (restored_behind t1 (pre ++ (c ∷ n)) 0 (m ++ slashed ns)
              (sym (append_assoc pre (c ∷ n) (0 ∷ (m ++ slashed ns))))
              (omega (arith, length-append pre (c ∷ n)))
            ∙ sym (append_assoc (pre ++ (c ∷ n)) (slash ∷ []) (m ++ slashed ns)))
          ps.0 ps.1)) in
      rw
        (
          next,
          l,
          e,
          char_at_start pre text,
          ← not_slash,
          drop_behind pre text,
          c_str-plain (c ∷ n) (m ++ slashed ns) p,
        )
        (ap (λ k. by_type dirs k (c ∷ n) (dirs.get_name_entry w d (c ∷ n))) again)
    where
      not_slash : false ≡ (c == slash)
      not_slash = ground arith

  entered-ext :
      (f g : W → D → Located W D)
      → ((w : W) (d : D) → f w d ≡ g w d)
      → (x : W × Found D) → entered dirs f x ≡ entered dirs g x
  unfolding entered
  entered-ext f g e (w, Found.entry d) = e w d
  entered-ext f g e (w, Found.missing x) = refl

  from_start :
      (w : W) (d : D) (s : List ℕ)
      → no_nul s ≡ true
      → (if length s == 0
          then Located.at_dir w d
          else locate dirs
              (length s + 1)
              w
              d
              (record { a_path = s; pos = 0; last_element = false }))
        ≡ walk w d (split s).0 (split s).1
  unfolding restored split walk
  from_start w d [] h = refl
  from_start w d (c ∷ s) h =
      let (p, ps) = split-AllPlain (c ∷ s) h in
      let joined = split-join (c ∷ s) in
      rw (suc_positive (length s)) (
        locate-walk (length (c ∷ s) + 1) w d [] (split (c ∷ s)).0 (split (c ∷ s)).1
          (record { a_path = c ∷ s; pos = 0; last_element = false })
          (omega (
            arith,
            length-slashed (split (c ∷ s)).1,
            length-append (split (c ∷ s)).0 (slashed (split (c ∷ s)).1),
            ap length joined,
          ))
          refl refl (sym joined) p ps)

  -- `RootLocateDir` of a string of C ends: with memory for the copy, it takes the directory at the root
  -- and goes from it by the components of the path, all but the last, up to an empty one. The entry of
  -- a name that is missing, or is no directory, ends the walk with its error.
  pub root_locate_dir-walk :
      (w : W) (full_name : List ℕ)
      → no_nul full_name ≡ true
      → root_locate_dir dirs true w full_name
        ≡ entered dirs
            (λ v d. walk v d (split full_name).0 (split full_name).1)
            (dirs.get_root_entry w)
  unfolding root_locate_dir
  root_locate_dir-walk w s h = entered-ext _ _ (λ v d. from_start v d s h) (dirs.get_root_entry w)
