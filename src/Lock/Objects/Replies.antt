-- ===== src/Lock/Objects/Replies.antt =====
-- The walk of `RootLocateDir` has an end, and so `act_LOCATE_OBJECT` has a reply.
use anfs.Base.{
  ℕ, Bytes, ◌≡◌, refl, sym, inl, inr, Bool, true, false, Option, none, some, ◌||◌, List, [], ◌∷◌,
  length, ◌==◌, Bool-cases, Option-cases,
}
use mathlib.Core.Path.{subst}
use anfs.Fn.{b2c_str}
use anfs.Fn.Split.{split, no_nul}
use anfs.Attrs.{Fattr}
use anfs.Locks.{Access, shared_lock, exclusive_lock, Elock, same_access, lock_insert}
use anfs.Lock.{
  Directories, Ftype, nfdir, nflnk, other_ftype, Found, entry, missing, Located, at_dir, failed,
  stuck, entered, by_type, root_locate_dir,
}
use anfs.Lock.Walk.{walk, root_locate_dir-walk}
use anfs.Lock.Entries.{Calls, Globals}
use anfs.Lock.Entries.Names.{Named, get_name_entry, directories}
use anfs.Lock.Objects.{
  Names, Locking, Reply, a_lock, no_lock, refused, runs_on, with_key, lock_create, dup_e_lock,
  lock_file, insert_lock, root_attr, insert_root, lock_named, lock_at, root_locate_and_lock,
  act_locate_object,
}

-- The walk has a result.
abbrev Ends : {W D : Type 0} → Located W D → Type 0
Ends (at_dir w d) = Unit {0}
Ends (failed w e) = Unit {0}
Ends stuck = ⊥

module _ {W D E : Type 0} (dirs : Directories W D E) where
  entered-Ends :
      (again : W → D → Located W D) (r : W × Found D)
      → ((w : W) (d : D) → Ends (again w d))
      → Ends (entered dirs again r)
  unfolding entered
  entered-Ends again (w, entry d) h = h w d
  entered-Ends again (w, missing e) h = tt

  by_type-Ends :
      (again : W → D → Located W D) (name : List ℕ) (r : W × Found E)
      → ((w : W) (d : D) → Ends (again w d))
      → Ends (by_type dirs again name r)
  unfolding by_type
  by_type-Ends again name (w, missing e) h = tt
  by_type-Ends again name (w, entry ent) h = go (dirs.ne_ftype ent) refl
    where
      go : (t : Ftype) → dirs.ne_ftype ent ≡ t → Ends (by_type dirs again name (w, entry ent))
      go nfdir e = rw (e, by_type) (entered-Ends again (dirs.get_dir_entry w ent name) h)
      go nflnk e = rw (e, by_type) tt
      go other_ftype e = rw (e, by_type) tt

  walk-Ends : (w : W) (d : D) (n : List ℕ) (ns : List (List ℕ)) → Ends (walk dirs w d n ns)
  unfolding walk
  walk-Ends w d n [] = tt
  walk-Ends w d [] (m ∷ ns) = tt
  walk-Ends w d (c ∷ n) (m ∷ ns) =
      by_type-Ends (λ v e. walk dirs v e m ns) (c ∷ n) (dirs.get_name_entry w d (c ∷ n))
        (λ v e. walk-Ends v e m ns)

  root_locate_dir-Ends :
      (memory : Bool) (w : W) (full_name : List ℕ)
      → no_nul full_name ≡ true
      → Ends (root_locate_dir dirs memory w full_name)
  unfolding root_locate_dir
  root_locate_dir-Ends false w full_name h = tt
  root_locate_dir-Ends true w full_name h =
      subst Ends (sym (root_locate_dir-walk dirs w full_name h)) (
        entered-Ends (λ v d. walk dirs v d (split full_name).0 (split full_name).1)
          (dirs.get_root_entry w) (λ v d. walk-Ends v d (split full_name).0 (split full_name).1))

-- The reply is one that the handler gives: a lock in the mode, which is new in front of the locks, or
-- an error, and the locks are as they were.
abbrev pub Replies : {W : Type 0} → (mode : Access) → List Elock → Reply × Locking W → Type 0
Replies mode locks (a_lock l, s) =
    (efl : Elock) × (efl.addr ≡ l) × (efl.fl_access ≡ mode) × (s.locks ≡ efl ∷ locks)
Replies mode locks (no_lock, s) = ⊥
Replies mode locks (refused e, s) = s.locks ≡ locks
Replies mode locks (runs_on, s) = ⊥

-- A lock that was created is in the mode.
abbrev InMode : (mode : Access) → Found Elock → Type 0
InMode mode (missing e) = Unit {0}
InMode mode (entry efl) = efl.fl_access ≡ mode

created-InMode :
    (mode : Access) (key : ℕ) (memory : Option ℕ)
    → InMode mode (with_key key (lock_create memory mode))
unfolding with_key lock_create
created-InMode mode key none = tt
created-InMode mode key (some a) = refl

dup_e_lock-InMode :
    (root_key : ℕ) (old : Option Elock) (mode : Access) (memory : Option ℕ)
    → InMode mode (dup_e_lock root_key old mode memory)
unfolding dup_e_lock
dup_e_lock-InMode root_key none mode memory = elim (Bool-cases (same_access mode shared_lock)) [
  | inl shared ↦ rw (shared, dup_e_lock) (created-InMode mode root_key memory)
  | inr other ↦ rw (other, dup_e_lock) tt
]
dup_e_lock-InMode root_key (some old) mode memory =
    elim (Bool-cases (same_access old.fl_access shared_lock)) [
      | inr held ↦ rw (held, dup_e_lock) tt
      | inl free ↦ elim (Bool-cases (same_access mode shared_lock)) [
        | inl shared ↦ rw (free, shared, dup_e_lock) (created-InMode mode old.fl_key memory)
        | inr other ↦ rw (free, other, dup_e_lock) tt
      ]
    ]

lock_file-InMode :
    (root_key : ℕ) (old : Option Elock) (fattr : Fattr) (mode : Access) (memory : Option ℕ)
    → InMode mode (lock_file root_key old fattr mode memory)
unfolding lock_file
lock_file-InMode root_key (some old) fattr mode memory =
    dup_e_lock-InMode root_key (some old) mode memory
lock_file-InMode root_key none fattr mode memory = elim (Bool-cases (fattr.ftype == 5)) [
  | inl link ↦ rw (link, lock_file) tt
  | inr plain ↦ rw (plain, lock_file) (created-InMode mode 0 memory)
]

insert_lock-Replies :
    {W : Type 0}
    → (mode : Access) (key : ℕ) (r : Found Elock) (s : Locking W) → InMode mode r
    → Replies mode s.locks (insert_lock key r s)
unfolding insert_lock lock_insert
insert_lock-Replies mode key (missing e) s m = refl
insert_lock-Replies mode key (entry efl) s m = (record efl { fl_key = key }, refl, m, refl)

module _ {W : Type 0} (calls : Calls W) (names : Names W) where
  insert_root-Replies :
      (mode : Access) (r : Found Elock) (s : Locking W)
      → InMode mode r
      → Replies mode s.locks (insert_root calls names r s)
  unfolding insert_root
  insert_root-Replies mode (missing e) s m = refl
  insert_root-Replies mode (entry efl) s m = go (root_attr calls names s.globals).1 refl
    where
      go :
          (attr : Found Fattr)
          → (root_attr calls names s.globals).1 ≡ attr
          → Replies mode s.locks (insert_root calls names (entry efl) s)
      go (missing e) e1 = rw (e1, insert_root) refl
      go (entry fattr) e1 =
          rw (e1, insert_root)
            (insert_lock-Replies mode fattr.fileid (entry efl)
              (record s { globals = (root_attr calls names s.globals).0 }) m)

  lock_named-Replies :
      (mode : Access) (r : Globals W × Found Named) (s : Locking W)
      → Replies mode s.locks (lock_named calls names mode r s)
  unfolding lock_named
  lock_named-Replies mode (g, missing e) s = refl
  lock_named-Replies mode (g, entry (n_ent, ace)) s =
      insert_lock-Replies mode (g.attrs.aces ace).ace_fattr.fileid _ (record s { globals = g })
        (lock_file-InMode g.mnt_file_id _ (g.attrs.aces ace).ace_fattr mode
          (names.lock_memory g.world))

  lock_at-Replies :
      (mode : Access) (full_name name : List ℕ) (r : Located (Globals W) ℕ) (s : Locking W)
      → Ends r
      → Replies mode s.locks (lock_at calls names mode full_name name r s)
  unfolding lock_at
  lock_at-Replies mode full_name name stuck s h = absurd h
  lock_at-Replies mode full_name name (failed g e) s h = refl
  lock_at-Replies mode full_name name (at_dir g par_dir) s h =
      elim (Bool-cases (length full_name == 0)) [
        | inl empty ↦
            rw (empty, lock_at)
              (insert_root-Replies mode _ (record s { globals = g })
                (dup_e_lock-InMode g.mnt_file_id none mode (names.lock_memory g.world)))
        | inr long ↦
            rw (long, lock_at)
              (lock_named-Replies mode (get_name_entry calls g par_dir name)
                (record s { globals = g }))
      ]

  root_locate_and_lock-Replies :
      (fl : ℕ) (rel_path : List ℕ) (mode : Access) (s : Locking W)
      → ((full_name name : List ℕ)
          → names.c_build_full_name s.globals.world s.locks fl rel_path ≡ entry (full_name, name)
          → no_nul full_name ≡ true)
      → Replies mode s.locks (root_locate_and_lock calls names fl rel_path mode s)
  unfolding root_locate_and_lock
  root_locate_and_lock-Replies fl rel_path mode s plain =
      elim (Bool-cases (same_access mode shared_lock || same_access mode exclusive_lock)) [
        | inr illegal ↦ rw (illegal, root_locate_and_lock) refl
        | inl legal ↦
            by_name legal (names.c_build_full_name s.globals.world s.locks fl rel_path) refl
      ]
    where
      by_name :
          (same_access mode shared_lock || same_access mode exclusive_lock) ≡ true
          → (r : Found (List ℕ × List ℕ))
          → names.c_build_full_name s.globals.world s.locks fl rel_path ≡ r
          → Replies mode s.locks (root_locate_and_lock calls names fl rel_path mode s)
      by_name legal (missing e) e1 = rw (legal, e1, root_locate_and_lock) refl
      by_name legal (entry (full_name, name)) e1 =
          rw (legal, e1, root_locate_and_lock)
            (lock_at-Replies mode full_name name _ s (
              root_locate_dir-Ends (directories calls) (names.path_memory s.globals.world) s.globals
                full_name (plain full_name name e1)))

  -- `act_LOCATE_OBJECT` always replies: with a lock in the mode that was asked for, which is put in
  -- front of the locks, or with an error, and the locks are as they were. Its walk along the path does
  -- not run on. The premise: the full names that `CBuildFullName` gives for the locks of the state are
  -- strings of C, with no zero in them.
  pub act_locate_object-Replies :
      (fl : ℕ) (bstr : Bytes) (mode : Access) (s : Locking W)
      → ((path full_name name : List ℕ)
          → names.c_build_full_name s.globals.world s.locks fl path ≡ entry (full_name, name)
          → no_nul full_name ≡ true)
      → Replies mode s.locks (act_locate_object calls names fl bstr mode s)
  unfolding act_locate_object
  act_locate_object-Replies fl bstr mode s plain =
      elim (Option-cases (b2c_str (names.path_memory s.globals.world) bstr).0) [
        | inl no_memory ↦ rw (no_memory, act_locate_object) refl
        | inr (path, e) ↦
            rw (e, act_locate_object) (root_locate_and_lock-Replies fl path mode s (plain path))
      ]
