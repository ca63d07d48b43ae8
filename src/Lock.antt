-- ===== src/Lock.antt =====
-- src/lock.c: the walk from the root of the mounted file system to the directory of a file.
pub mod Walk
pub mod Entries
pub mod Objects
pub mod Tests
use anfs.Base.{
  ℕ, zero, suc, ◌+◌, Bool, true, false, ◌||◌, List, [], ◌∷◌, length, drop, ◌==◌, if◌then◌else◌,
}
use anfs.Nfssupp.{IoErr}
use anfs.Fn.{slash, char_at, Scan, scan_path, c_str}

-- `ftype` of the protocol; `other_ftype` is NFNON, NFREG, NFBLK or NFCHR.
pub data Ftype : Type 0 where
  nfdir nflnk other_ftype : Ftype

-- A pointer, or NULL with `*Res2`
pub data Found (A : Type 0) : Type 0 where
  entry : A → Found A
  missing : IoErr → Found A

-- What the walk uses of the caches and the server: the directory at the root, the entry of a name
-- in a directory with the type of its file, and the directory of such an entry.
pub record Directories (W D E : Type 0) : Type 0 where
  pub get_root_entry : W → W × Found D
  pub get_name_entry : W → D → List ℕ → W × Found E
  pub ne_ftype : E → Ftype
  pub get_dir_entry : W → E → List ℕ → W × Found D

-- `ParDir`, or NULL with `*Res2`. `stuck`: the fuel was too little.
pub data Located (W D : Type 0) : Type 0 where
  at_dir : W → D → Located W D
  failed : W → IoErr → Located W D
  stuck : Located W D

module _ {W D E : Type 0} (dirs : Directories W D E) where
  -- The end of a round: `again` is the rest of the loop.
  unfoldable pub entered : (again : W → D → Located W D) → W × Found D → Located W D
  entered again (w, entry d) = again w d
  entered again (w, missing e) = failed w e

  -- A round for the entry of the name
  unfoldable pub by_type :
      (again : W → D → Located W D) → (name : List ℕ) → W × Found E → Located W D
  unfolding entered
  by_type again name (w, missing e) = failed w e
  by_type again name (w, entry ent) = elim (dirs.ne_ftype ent) [
    | nfdir ↦ entered again (dirs.get_dir_entry w ent name)
    | nflnk ↦ failed w IoErr.error_is_soft_link
    | other_ftype ↦ failed w IoErr.error_invalid_component_name
  ]

  -- The loop of `RootLocateDir`
  unfoldable pub locate : (fuel : ℕ) → W → D → Scan → Located W D
  unfolding by_type
  locate zero w d t = stuck
  locate (suc fuel) w d t =
      let (p_comp, t') = scan_path t in
      if t'.last_element || char_at t'.a_path p_comp == slash
      then at_dir w d
      else (let name = c_str (drop p_comp t'.a_path) in
          by_type (λ v e. locate fuel v e t') name (dirs.get_name_entry w d name))

  -- `RootLocateDir`; `memory` is for the copy of the name.
  unfoldable pub root_locate_dir : (memory : Bool) → W → (full_name : List ℕ) → Located W D
  unfolding locate entered
  root_locate_dir false w full_name = failed w IoErr.error_no_free_store
  root_locate_dir true w full_name =
      entered
        (λ v d.
          if length full_name == 0
          then at_dir v d
          else locate (length full_name + 1) v d
              (record { a_path = full_name; pos = 0; last_element = false }))
        (dirs.get_root_entry w)
