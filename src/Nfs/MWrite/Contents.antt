-- ===== src/Nfs/MWrite/Contents.antt =====
-- `nfs_MWrite` ends, and stores its bytes in order.
use anfs.Base.{
  ℕ, zero, suc, ◌+◌, ◌%◌, ◌^◌, ◌<◌, min, ◌≡◌, refl, sym, ap, ◌∙◌, inl, inr, Option, none, some,
  List, [], ◌∷◌, ◌++◌, length, take, drop, length-append, length-take, length-drop,
  take-append-drop, Bytes, overlay, overlay-append, overlay_local, take-append_length, arith,
}
use mathlib.Core.List.{append-nil, append_assoc}
use anfs.Nfs.Calls.{Rpc, Attrstat, Server}
use anfs.Nfs.MRead.{nfs_maxdata}
use anfs.Nfs.MWrite.{
  Writing, done, failed, undefined, stuck, write_end, write_answer, write_loop, m_write,
}

-- The outcome of a write of `buf` at `offset` into a file with contents `f`: all of it is stored and
-- its length returned, or the write fails and a first part of it is stored.
abbrev pub Writes : {W : Type 0} → (W → Bytes) → Bytes → (offset : ℕ) → List ℕ → Writing W → Type 0
Writes contents f offset buf (done w n size) =
    (n ≡ length buf) × ((k : ℕ) → contents w k ≡ overlay offset buf f k)
Writes contents f offset buf (failed w e) =
    (j : ℕ) × ((k : ℕ) → contents w k ≡ overlay offset (take j buf) f k)
Writes contents f offset buf undefined = buf ≡ []
Writes contents f offset buf stuck = ⊥

module _ {W : Type 0} (rpc : Rpc W) (server : Server rpc) where
  open server use {contents}

  module _ (f : Bytes) (start : ℕ) (all : List ℕ) (max_write : ℕ) where
    -- The loop, in the middle of its work: `put` is stored, `buf` is left.
    abbrev Continues : ℕ → Type 0
    Continues fuel =
        (w : W) (offset : ℕ) (put buf : List ℕ) (res : Option ℕ)
        → put ++ buf ≡ all
        → ((k : ℕ) → contents w k ≡ overlay start put f k)
        → offset ≡ start + length put
        → (res ≡ none → put ≡ [])
        → length buf < fuel
        → Writes contents f start all (write_loop rpc max_write (length all) fuel w offset buf res)

    write_end-Writes :
        (w : W) (put : List ℕ) (res : Option ℕ)
        → put ++ [] ≡ all
        → ((k : ℕ) → contents w k ≡ overlay start put f k)
        → (res ≡ none → put ≡ [])
        → Writes contents f start all (write_end w (length all) res)
    unfolding write_end
    write_end-Writes w put none e st first = sym (rw (first refl) at e)
    write_end-Writes w put (some n) e st first = (refl, λ k. rw (← e, append-nil) (st k))

    -- What the answer says of the contents after a call that writes `chunk` behind `put`.
    stored :
        (w : W) (offset : ℕ) (put chunk : List ℕ)
        → ((k : ℕ) → contents w k ≡ overlay start put f k)
        → offset ≡ start + length put
        → (k : ℕ) → overlay offset chunk (contents w) k ≡ overlay start (put ++ chunk) f k
    stored w offset put chunk st o k =
        rw o (overlay_local _ chunk _ _ k (st k) ∙ sym (overlay-append start put chunk f k))

    -- The write stops behind a first part `put` of the bytes.
    stopped :
        (w : W) (put rest : List ℕ)
        → put ++ rest ≡ all
        → ((k : ℕ) → contents w k ≡ overlay start put f k)
        → (j : ℕ) × ((k : ℕ) → contents w k ≡ overlay start (take j all) f k)
    stopped w put rest e st = (length put, λ k. rw (← e, take-append_length put rest) (st k))

    write_answer-Writes :
        (fuel : ℕ)
        → Continues fuel
        → (w : W) (offset : ℕ) (put chunk rest : List ℕ) (len : ℕ) (a : Attrstat)
        → length chunk ≡ len
        → put ++ chunk ++ rest ≡ all
        → ((k : ℕ) → contents w k ≡ overlay start put f k)
        → offset ≡ start + length put
        → start + length all < 2 ^ 32
        → length rest < fuel
        → (rpc.nfsproc_write w offset chunk).1 ≡ a
        → Writes contents f start all (
            write_answer rpc
              (λ v o r. write_loop rpc max_write (length all) fuel v o rest r)
              (rpc.nfsproc_write w offset chunk).0
              ((offset + len) % 2 ^ 32)
              a)
    unfolding write_answer
    write_answer-Writes fuel again w offset put chunk rest len Attrstat.no_reply el e st o h fu a =
        elim (server.write_lost w offset chunk a) [
          | inl same ↦
              stopped _ put (chunk ++ rest) (sym (append_assoc put chunk rest) ∙ e)
                (λ k. ap (λ c. c k) same ∙ st k)
          | inr written ↦
              stopped _ (put ++ chunk) rest e (λ k. written k ∙ stored w offset put chunk st o k)
        ]
    write_answer-Writes fuel again w offset put chunk rest len (Attrstat.refused s) el e st o h fu
          a =
        stopped _ put (chunk ++ rest) (sym (append_assoc put chunk rest) ∙ e)
          (λ k. ap (λ c. c k) (server.write_refused w offset chunk s a) ∙ st k)
    write_answer-Writes fuel again w offset put chunk rest len (Attrstat.attributes n) el e st o h
          fu a =
        again _ _ (put ++ chunk) rest (some n) e
          (λ k. server.write_stores w offset chunk n k a ∙ stored w offset put chunk st o k)
          (omega (arith, ap length e, length-append (put ++ chunk) rest, length-append put chunk))
          (λ i. cc) fu

    write_loop-Writes : (fuel : ℕ) → start + length all < 2 ^ 32 → 0 < max_write → Continues fuel
    unfolding write_loop
    write_loop-Writes zero h m w offset put buf res e st o first fu = elim fu [ ]
    write_loop-Writes (suc fuel) h m w offset put [] res e st o first fu =
        write_end-Writes w put res e st first
    write_loop-Writes (suc fuel) h m w offset put (b ∷ buf) res e st o first fu =
        write_answer-Writes fuel (write_loop-Writes fuel h m) w offset put chunk rest len _
          (omega (arith, length-take len (b ∷ buf)))
          (append_assoc put chunk rest ∙ ap (λ x. put ++ x) (take-append-drop len (b ∷ buf)) ∙ e) st
          o h (omega (arith, length-drop len (b ∷ buf))) refl
      where
        len : ℕ
        len = min (length (b ∷ buf)) max_write

        chunk : List ℕ
        chunk = take len (b ∷ buf)

        rest : List ℕ
        rest = drop len (b ∷ buf)

  -- `nfs_MWrite` ends. If it succeeds, the contents of the file are the old ones with all bytes
  -- written at `offset`, and their number is returned; if it fails, a first part of the bytes is
  -- written and nothing else is changed. It uses an answer that it did not get only if there is no
  -- byte to write. The premises are that the largest write is not 0 and that the end of the write
  -- fits in 32 bits.
  pub m_write-Writes :
      (max_write_size : ℕ) (w : W) (offset : ℕ) (buf : List ℕ)
      → 0 < max_write_size
      → offset + length buf < 2 ^ 32
      → Writes contents (contents w) offset buf (m_write rpc max_write_size w offset buf)
  unfolding m_write overlay
  m_write-Writes max_write_size w offset buf m h =
      write_loop-Writes (contents w) offset buf (min max_write_size nfs_maxdata) (length buf + 1) h
        (omega arith) w offset [] buf none refl (λ k. refl) (omega arith) (λ e. refl) (omega arith)
