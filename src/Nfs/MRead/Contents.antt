-- ===== src/Nfs/MRead/Contents.antt =====
-- `nfs_MRead` ends, and what it reads are bytes of the file.
use anfs.Base.{
  ℕ, zero, suc, ◌+◌, ◌^◌, ◌≤◌, ◌<◌, min, ◌≡◌, refl, ap, ◌∙◌, inl, inr, Option, none, some, List, [],
  ◌∷◌, ◌++◌, length, length-append, Bytes, slice, slice-append, arith, ◌==◌, leb, ◌||◌, true,
  Bool-cases,
}
use mathlib.Core.Path.{ap₂, subst₂}
use anfs.Nfs.Calls.{Rpc, Readres, Server}
use anfs.Nfs.MRead.{
  Reading, done, failed, undefined, stuck, nfs_maxdata, read_end, read_answer, read_loop, m_read,
}

-- The outcome of a read of `count` bytes at `offset` from a file with contents `f` and size `z`:
-- bytes of the file, fewer than asked for only at its end, with its size; or an error.
abbrev pub Reads :
    {W : Type 0} → (W → Bytes) → (W → ℕ) → Bytes → (z offset count : ℕ) → Reading W → Type 0
Reads contents size f z offset count (done w bs n) =
    (contents w ≡ f)
    × (size w ≡ z)
    × (bs ≡ slice f offset (length bs))
    × (length bs ≤ count)
    × (n ≡ z)
    × ((leb count (length bs) || leb z (offset + length bs)) ≡ true)
Reads contents size f z offset count (failed w e) = (contents w ≡ f) × (size w ≡ z)
Reads contents size f z offset count undefined = count ≡ 0
Reads contents size f z offset count stuck = ⊥

-- What is known of an answer to a call for at most `c` bytes at `o`.
abbrev Answers : Bytes → (z o c : ℕ) → Readres → Type 0
Answers f z o c Readres.no_reply = Unit {0}
Answers f z o c (Readres.refused s) = Unit {0}
Answers f z o c (Readres.reply [] n) = (n ≡ z) × (z ≤ o)
Answers f z o c (Readres.reply (b ∷ bs) n) =
    (b ∷ bs ≡ slice f o (length (b ∷ bs))) × (length (b ∷ bs) ≤ c) × (n ≡ z)

-- The last answer, if there was one, gave the size.
abbrev Known : ℕ → List ℕ → Option ℕ → Type 0
Known z got none = got ≡ []
Known z got (some n) = n ≡ z

module _ {W : Type 0} (rpc : Rpc W) (server : Server rpc) where
  open server use {contents, size}

  answer-Answers :
      (w : W) (o c : ℕ) (a : Readres)
      → 0 < c
      → (rpc.nfsproc_read w o c).1 ≡ a
      → Answers (contents w) (size w) o c a
  answer-Answers w o c Readres.no_reply h e = tt
  answer-Answers w o c (Readres.refused s) h e = tt
  answer-Answers w o c (Readres.reply [] n) h e =
      ((server.read_bytes w o c [] n e).2, server.read_end w o c n h e)
  answer-Answers w o c (Readres.reply (b ∷ bs) n) h e = server.read_bytes w o c (b ∷ bs) n e

  module _ (f : Bytes) (z start total max_read : ℕ) where
    read_end-Reads :
        (w : W) (got : List ℕ) (res : Option ℕ)
        → contents w ≡ f
        → size w ≡ z
        → got ≡ slice f start (length got)
        → length got ≤ total
        → Known z got res
        → (length got < total → z ≤ start + length got)
        → (got ≡ [] → res ≡ none → total ≡ 0)
        → Reads contents size f z start total (read_end w got res)
    unfolding read_end
    read_end-Reads w got none ec ez g l k short zero_total = zero_total k refl
    read_end-Reads w got (some n) ec ez g l k short zero_total =
        (ec, ez, g, l, k, ground (arith, short))

    -- The loop, in the middle of its work: `got` is read, `count` bytes are wanted.
    abbrev Continues : ℕ → Type 0
    Continues fuel =
        (w : W) (offset count : ℕ) (got : List ℕ) (res : Option ℕ)
        → contents w ≡ f
        → size w ≡ z
        → got ≡ slice f start (length got)
        → offset ≡ start + length got
        → count + length got ≡ total
        → Known z got res
        → count < fuel
        → Reads contents size f z start total (read_loop rpc max_read fuel w offset count got res)

    read_answer-Reads :
        (fuel : ℕ)
        → Continues fuel
        → (w : W) (offset count : ℕ) (got : List ℕ) (a : Readres) → contents w ≡ f
        → size w ≡ z
        → got ≡ slice f start (length got)
        → offset ≡ start + length got
        → count + length got ≡ total
        → count < suc fuel
        → start + total < 2 ^ 32
        → Answers f z offset (min count max_read) a
        → Reads contents size f z start total
            (read_answer rpc (read_loop rpc max_read fuel) w offset count got a)
    unfolding read_answer
    read_answer-Reads fuel again w offset count got Readres.no_reply ec ez g o t fu h a = (ec, ez)
    read_answer-Reads fuel again w offset count got (Readres.refused s) ec ez g o t fu h a =
        (ec, ez)
    read_answer-Reads fuel again w offset count got (Readres.reply [] n) ec ez g o t fu h a =
        read_end-Reads w got (some n) ec ez g (omega arith) a.0 (λ l. omega arith) (λ e. cc)
    read_answer-Reads fuel again w offset count got (Readres.reply (b ∷ bs) n) ec ez g o t fu h a =
        let len : length (got ++ b ∷ bs) ≡ length got + length (b ∷ bs) =
          length-append got (b ∷ bs) in
        again w _ _ (got ++ b ∷ bs) (some n) ec ez
          (rw (len, slice-append) (ap₂ ◌++◌ g (a.0 ∙ ap (λ x. slice f x (length (b ∷ bs))) o)))
          (omega arith) (omega arith) a.2 (omega arith)

    read_loop-Reads : (fuel : ℕ) → start + total < 2 ^ 32 → 0 < max_read → Continues fuel
    unfolding read_loop
    read_loop-Reads zero h m w offset count got res ec ez g o t k fu = elim fu [ ]
    read_loop-Reads (suc fuel) h m w offset count got res ec ez g o t k fu =
        elim (Bool-cases (count == 0)) [
          | inl finished ↦
              rw (finished, Reads)
                (read_end-Reads w got res ec ez g (omega arith) k (λ l. absurd (ground arith))
                  (λ e _. ground (arith, ap length e)))
          | inr more ↦
              rw (more, Reads)
                (read_answer-Reads fuel (read_loop-Reads fuel h m) _ offset count got _
                  (keeps.0 ∙ ec) (keeps.1 ∙ ez) g o t fu h
                  (subst₂ (λ x y. Answers x y offset asked answer) ec ez
                    (answer-Answers w offset asked answer (ground arith) refl)))
        ]
      where
        asked : ℕ
        asked = min count max_read

        answer : Readres
        answer = (rpc.nfsproc_read w offset asked).1

        keeps :
            (contents (rpc.nfsproc_read w offset asked).0 ≡ contents w)
            × (size (rpc.nfsproc_read w offset asked).0 ≡ size w)
        keeps = server.read_keeps w offset asked

  -- `nfs_MRead` ends and leaves the file as it is. If it succeeds, it reads the bytes of the file from
  -- `offset` on and the size of the file: all bytes that were asked for, or fewer if the end of the
  -- file is reached. It uses an answer that it did not get only if no byte is asked for. The premises are that the largest read is not 0 and
  -- that the end of the request fits in 32 bits.
  pub m_read-Reads :
      (max_read_size : ℕ) (w : W) (offset count : ℕ)
      → 0 < max_read_size
      → offset + count < 2 ^ 32
      → Reads contents size
          (contents w)
          (size w)
          offset
          count
          (m_read rpc max_read_size w offset count)
  unfolding m_read slice
  m_read-Reads max_read_size w offset count m h =
      read_loop-Reads (contents w) (size w) offset count (min max_read_size nfs_maxdata) (count + 1)
        h (omega arith) w offset count [] none refl refl refl (omega arith) (omega arith) refl
        (omega arith)
