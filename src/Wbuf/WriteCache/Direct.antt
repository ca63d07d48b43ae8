-- ===== src/Wbuf/WriteCache/Direct.antt =====
-- The write that goes past the cache.
use anfs.Base.{
  ℕ, ◌+◌, ◌<◌, ◌^◌, ◌≡◌, ◌≢◌, refl, sym, ◌∙◌, ap, inl, inr, true, List, [], ◌∷◌, length, Bytes,
  overlay, overlay_local, arith, ◌==◌, Bool-cases,
}
use anfs.Nfs.MWrite.{Writing}
use anfs.Nfs.MWrite.Contents.{Writes}
use anfs.Wbuf.State.{Wbufhdr, State, Run, ok, err, fault, and_then}
use anfs.Wbuf.Flush.{Writer}
use anfs.Wbuf.Flush.Contents.{with_bufs, AreValid, Flushes, flush_cache-Flushes}
use anfs.Wbuf.WriteCache.{written, direct_write, flush_cache_and_write}

module _ {W : Type 0} (writer : Writer W) where
  open writer use {contents}

  -- The outcome of a write of `buf` at `file_pos`, with `f` the contents as the program sees them.
  abbrev pub WritesThrough : Bytes → ℕ → List ℕ → Run W (ℕ × ℕ) → Type 0
  WritesThrough f file_pos buf (ok r t) =
      (r.0 ≡ length buf)
      × (t.wbc.bufs ≡ [])
      × ((k : ℕ) → contents t.world k ≡ overlay file_pos buf f k)
  WritesThrough f file_pos buf (err e t) = t.wbc.bufs ≡ []
  WritesThrough f file_pos buf fault = ⊥

  written-WritesThrough :
      (f g : Bytes) (file_pos : ℕ) (buf : List ℕ) (s : State W) (r : Writing W)
      → buf ≢ []
      → s.wbc.bufs ≡ []
      → ((k : ℕ) → g k ≡ f k)
      → Writes contents g file_pos buf r
      → WritesThrough f file_pos buf (written r s)
  unfolding written
  written-WritesThrough f g file_pos buf s (Writing.done w n size) ne em e h =
      (h.0, em, λ k. h.1 k ∙ overlay_local file_pos buf g f k (e k))
  written-WritesThrough f g file_pos buf s (Writing.failed w x) ne em e h = em
  written-WritesThrough f g file_pos buf s Writing.undefined ne em e h = absurd (ne h)
  written-WritesThrough f g file_pos buf s Writing.stuck ne em e h = elim h [ ]

  pub direct-WritesThrough :
      (f : Bytes) (file_pos : ℕ) (buf : List ℕ) (s : State W)
      → buf ≢ []
      → file_pos + length buf < 2 ^ 32
      → s.wbc.bufs ≡ []
      → ((k : ℕ) → contents s.world k ≡ f k)
      → WritesThrough f file_pos buf (direct_write writer file_pos buf s)
  unfolding direct_write
  direct-WritesThrough f file_pos buf s ne h em e =
      written-WritesThrough f (contents s.world) file_pos buf s _ ne em e
        (writer.nfs_write-Writes s.world file_pos buf h)

  after_flush :
      (file_pos : ℕ) (buf : List ℕ) (s : State W) (r : Run W (Unit {0}))
      → buf ≢ []
      → file_pos + length buf < 2 ^ 32
      → Flushes writer s.wbc.bufs s r
      → WritesThrough
          (with_bufs s.mem s.wbc.bufs (contents s.world))
          file_pos
          buf
          (and_then r (λ _. direct_write writer file_pos buf))
  after_flush file_pos buf s (ok a t) ne h fl =
      direct-WritesThrough _ file_pos buf t ne h fl.0.no_bufs fl.1
  after_flush file_pos buf s (err e t) ne h fl = fl.no_bufs
  after_flush file_pos buf s fault ne h fl = elim fl [ ]

  no_bufs_of_zero : (bufs : List Wbufhdr) (n : ℕ) → n ≡ length bufs → (n == 0) ≡ true → bufs ≡ []
  no_bufs_of_zero [] n e z = refl
  no_bufs_of_zero (b ∷ bufs) n e z = absurd (ground arith)

  -- `FlushCacheAndWrite` on a cluster that counts its buffers, with valid buffers, for bytes that end
  -- below the end of the address range. Where it succeeds, the contents of the file are those that
  -- the program sees, the cached bytes over the file, with `buf` written at the position over them:
  -- the new bytes win over older cached ones; its result is the number of bytes. It leaves the
  -- cluster empty on success and on failure, and uses no pointer that is not valid.
  pub flush_cache_and_write-WritesThrough :
      (file_pos : ℕ) (buf : List ℕ) (s : State W)
      → buf ≢ []
      → file_pos + length buf < 2 ^ 32
      → s.wbc.wbufs_used ≡ length s.wbc.bufs
      → AreValid s.wbc.bufs
      → WritesThrough
          (with_bufs s.mem s.wbc.bufs (contents s.world))
          file_pos
          buf
          (flush_cache_and_write writer file_pos buf s)
  unfolding flush_cache_and_write
  flush_cache_and_write-WritesThrough file_pos buf s ne h counted v =
      elim (Bool-cases (s.wbc.wbufs_used == 0)) [
        | inl z ↦
            let none_left = no_bufs_of_zero s.wbc.bufs s.wbc.wbufs_used counted z in
            simp z (
              direct-WritesThrough _ file_pos buf s ne h none_left
                (λ k. ap (λ bs. with_bufs s.mem bs (contents s.world) k) (sym none_left)))
        | inr nz ↦
            simp nz (after_flush file_pos buf s _ ne h (flush_cache-Flushes writer s counted v))
      ]
