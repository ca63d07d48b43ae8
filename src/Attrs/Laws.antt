-- ===== src/Attrs/Laws.antt =====
-- The attributes that the cache was given are those that it finds.
use anfs.Base.{
  ℕ, ◌^◌, ◌<◌, ◌≤◌, ◌≡◌, refl, ap, sym, inl, inr, ◌⊎◌, Bool, true, false, Option, none, some, ltb,
  ◌==◌, arith, Option-cases,
}
use mathlib.Core.Path.{subst}
use anfs.Fthash.{FtHashTable, dead_at, get_free_ent}
use anfs.Fthash.Keys.{fthash_lookup, fthash_insert}
use anfs.Fthash.Count.{IsCounted}
use anfs.Fthash.Keys.Counted.{fthash_lookup2-IsCounted}
use anfs.Fthash.Keys.Round.{fthash_lookup-insert}
use anfs.Fthash.Keys.Again.{
  fthash_lookup-fthash_lookup2, fthash_lookup_again, fthash_lookup-ttl, fthash_insert-ttl,
  fthash_insert-none,
}
use anfs.Attrs.{
  NfsFh, Fattr, AcEntry, Cache, attrs_hash_func, attrs_key_cmp, same_id, attrs_lookup_from_file_id,
  attrs_create_and_insert, attrs_update, set_ace,
}

-- On numbers of 32 bits the comparison tells whether they are the same.
pub same_id_iff :
    (a b : ℕ)
    → a < 2 ^ 32
    → b < 2 ^ 32
    → ((same_id a b ≡ true) → (a ≡ b)) × ((a ≡ b) → (same_id a b ≡ true))
unfolding same_id attrs_key_cmp
same_id_iff a b h k = (λ e. ground arith, λ e. ground arith)

-- What an update gives: an entry with the attributes, which the next lookup finds, or NULL if there is
-- no memory or the table has no entry to give
abbrev pub Updates :
    (alloc : Option ℕ) (memory : Bool) (now : ℕ) → NfsFh → Fattr → Option ℕ × Cache → Type 0
Updates alloc memory now fh fattr (some ent, g) =
    ((attrs_lookup_from_file_id now fattr.fileid g).0 ≡ some ent)
    × ((g.aces ent).ace_nfs_fh ≡ fh)
    × ((g.aces ent).ace_fattr ≡ fattr)
Updates alloc memory now fh fattr (none, g) =
    (alloc ≡ none) ⊎ (get_free_ent memory g.attr_cache ≡ none)

set_ace-here : (ent : ℕ) (ace : AcEntry) (aces : ℕ → AcEntry) → set_ace ent ace aces ent ≡ ace
set_ace-here ent ace aces = rw (==-refl ent) refl
  where
    ==-refl : (k : ℕ) → (k == k) ≡ true
    ==-refl k = ground arith

-- An entry that is made now is not dead.
born_now :
    (now : ℕ) (t : FtHashTable ℕ ℕ)
    → t.tht_ttl ≤ now
    → now < 2 ^ 32
    → ltb now (dead_at now t) ≡ false
unfolding dead_at
born_now now t h k = ground arith

pub create-Updates :
    (alloc : Option ℕ) (memory : Bool) (now : ℕ) (fh : NfsFh) (fattr : Fattr) (g : Cache)
    → IsCounted g.attr_cache
    → fattr.fileid < 2 ^ 32
    → g.attr_cache.tht_ttl ≤ now
    → now < 2 ^ 32
    → Updates alloc memory now fh fattr (attrs_create_and_insert alloc memory now fh fattr g)
unfolding attrs_create_and_insert attrs_lookup_from_file_id
create-Updates none memory now fh fattr g c id ttl h = inl refl
create-Updates (some ent) memory now fh fattr g c id ttl h =
    elim (Option-cases
      (fthash_insert attrs_hash_func same_id memory now fattr.fileid (some ent) g.attr_cache)) [
        | inl full ↦
            rw (full, attrs_create_and_insert)
              (inr (
                fthash_insert-none attrs_hash_func same_id memory now fattr.fileid (some ent)
                  g.attr_cache full))
        | inr (tb, e) ↦
            rw (e, attrs_create_and_insert)
              (
                (fthash_lookup-insert attrs_hash_func same_id memory now now fattr.fileid (some ent)
                    g.attr_cache tb c ((same_id_iff fattr.fileid fattr.fileid id id).1 refl) e
                    (born_now now tb
                      (omega (
                        arith,
                        fthash_insert-ttl attrs_hash_func same_id memory now fattr.fileid (some ent)
                            g.attr_cache tb e,
                      ))
                      h)).0,
                ap (λ x. x.ace_nfs_fh) (set_ace-here ent _ g.aces),
                ap (λ x. x.ace_fattr) (set_ace-here ent _ g.aces),
              )
      ]

-- A lookup keeps the counter of the table and its timeout.
pub lookup-keeps :
    (now file_id : ℕ) (g : Cache)
    → IsCounted g.attr_cache
    → IsCounted (attrs_lookup_from_file_id now file_id g).1.attr_cache
      × ((attrs_lookup_from_file_id now file_id g).1.attr_cache.tht_ttl ≡ g.attr_cache.tht_ttl)
unfolding attrs_lookup_from_file_id
lookup-keeps now file_id g c = (
  subst IsCounted
      (sym (fthash_lookup-fthash_lookup2 attrs_hash_func same_id now file_id g.attr_cache))
      (fthash_lookup2-IsCounted attrs_hash_func same_id now file_id g.attr_cache c),
  fthash_lookup-ttl attrs_hash_func same_id now file_id g.attr_cache,
)

-- An entry that the cache has is updated.
pub update-found :
    (alloc : Option ℕ) (memory : Bool) (now ent : ℕ) (fh : NfsFh) (fattr : Fattr) (g : Cache)
    → (attrs_lookup_from_file_id now fattr.fileid g).0 ≡ some ent
    → (attrs_update alloc memory now fh fattr g).0 ≡ some ent
unfolding attrs_update
update-found alloc memory now ent fh fattr g found = rw (found, attrs_update) refl

pub lookup-again :
    (now file_id ent : ℕ) (g : Cache)
    → IsCounted g.attr_cache
    → (attrs_lookup_from_file_id now file_id g).0 ≡ some ent
    → (attrs_lookup_from_file_id now file_id (attrs_lookup_from_file_id now file_id g).1).0
      ≡ some ent
unfolding attrs_lookup_from_file_id
lookup-again now file_id ent g c found =
    fthash_lookup_again attrs_hash_func same_id now file_id ent g.attr_cache c found

-- `attrs_Update` puts the attributes into the cache, in an entry that was found or in a new one: the next
-- lookup of the number of the file finds them. It gives NULL only if memory or a free entry of the
-- table is missing. The premises: the table counts its entries, the number of the file and the
-- time have 32 bits, and the time is not before the first timeout.
pub attrs_update-Updates :
    (alloc : Option ℕ) (memory : Bool) (now : ℕ) (fh : NfsFh) (fattr : Fattr) (g : Cache)
    → IsCounted g.attr_cache
    → fattr.fileid < 2 ^ 32
    → g.attr_cache.tht_ttl ≤ now
    → now < 2 ^ 32
    → Updates alloc memory now fh fattr (attrs_update alloc memory now fh fattr g)
unfolding attrs_update attrs_lookup_from_file_id
attrs_update-Updates alloc memory now fh fattr g c id ttl h =
    let t = g.attr_cache in
    elim (Option-cases (fthash_lookup attrs_hash_func same_id now fattr.fileid t).0) [
      | inl missing ↦
          rw (missing, attrs_update)
            (create-Updates alloc memory now fh fattr _
              (subst IsCounted
                (sym (fthash_lookup-fthash_lookup2 attrs_hash_func same_id now fattr.fileid t))
                (fthash_lookup2-IsCounted attrs_hash_func same_id now fattr.fileid t c))
              id (omega (arith, fthash_lookup-ttl attrs_hash_func same_id now fattr.fileid t)) h)
      | inr (ent, found) ↦
          rw (found, attrs_update)
            (
              fthash_lookup_again attrs_hash_func same_id now fattr.fileid ent t c found,
              ap (λ x. x.ace_nfs_fh) (set_ace-here ent _ g.aces),
              ap (λ x. x.ace_fattr) (set_ace-here ent _ g.aces),
            )
    ]
