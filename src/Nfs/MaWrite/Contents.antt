-- ===== src/Nfs/MaWrite/Contents.antt =====
-- `nfs_MAWrite` ends, and all of its bytes are stored when it succeeds.
use anfs.Base.{
  ℕ, zero, suc, ◌+◌, ◌*◌, ◌-◌, ◌%◌, ◌^◌, ◌<◌, ◌≤◌, min, ◌≡◌, refl, sym, ap, ◌∙◌, inl, inr, Bool,
  true, false, ◌&&◌, ◌||◌, not, List, [], ◌∷◌, ◌++◌, length, take, drop, length-append, length-take,
  length-drop, take-append-drop, Bytes, overlay, overlay-append, overlay_local, ◌==◌, leb, arith,
  Bool-cases,
}
use mathlib.Core.Path.{subst}
use mathlib.Core.List.{append-nil, append_assoc}
use anfs.Nfs.Calls.{Attrstat}
use anfs.Nfs.MRead.{nfs_maxdata}
use anfs.Nfs.MWrite.{Writing}
use anfs.Nfs.MaWrite.{Async, answered, after_send, send_next, awrite_loop, ma_write}
use anfs.Nfs.MaWrite.Server.{AsyncServer, Stores}

module _ {W : Type 0} (rpc : Async W) (window : ℕ) (server : AsyncServer rpc window) where
  open server use {contents, settled, outstanding}

  module _ (f : Bytes) (start : ℕ) (all : List ℕ) (max_write : ℕ) where
    abbrev Good : Writing W → Type 0
    Good = Stores rpc window contents outstanding f start all

    -- The state of the loop: `put` is sent, `buf` is left.
    abbrev Sent : W → (offset : ℕ) → (put buf : List ℕ) → (numpending : ℕ) → Type 0
    Sent w offset put buf numpending =
        (put ++ buf ≡ all)
        × ((k : ℕ) → settled w k ≡ overlay start put f k)
        × (offset ≡ start + length put)
        × (outstanding w ≡ numpending)

    abbrev Continues : ℕ → Type 0
    Continues fuel =
        (w : W) (offset : ℕ) (put buf : List ℕ) (numpending file_len : ℕ)
        → Sent w offset put buf numpending
        → numpending ≤ window
        → length buf * 2 + numpending < fuel
        → Good (awrite_loop rpc window max_write (length all) fuel w offset buf numpending file_len)

    after_send-Good :
        (fuel : ℕ) (w : W) (offset : ℕ) (put chunk rest : List ℕ) (len numpending file_len : ℕ)
        (ok : Bool)
        → Continues fuel
        → length chunk ≡ len
        → put ++ chunk ++ rest ≡ all
        → ((k : ℕ) → settled w k ≡ overlay start put f k)
        → offset ≡ start + length put
        → outstanding w ≡ numpending
        → numpending < window
        → start + length all < 2 ^ 32
        → length rest * 2 + numpending + 1 < fuel
        → (rpc.send_write w offset chunk).1 ≡ ok
        → Good (
            after_send rpc
              (λ v.
                awrite_loop rpc window max_write
                  (length all)
                  fuel
                  v
                  ((offset + len) % 2 ^ 32)
                  rest
                  (numpending + 1)
                  file_len)
              (rpc.send_write w offset chunk).0
              ok)
    unfolding after_send
    after_send-Good fuel w offset put chunk rest len numpending file_len false again l e st o out n
          h fu sent =
        inl (w, offset, chunk, omega arith, sent)
    after_send-Good fuel w offset put chunk rest len numpending file_len true again l e st o out n h
          fu sent =
        let (more, stored) = server.send_adds w offset chunk (omega arith) sent in
        again _ _ (put ++ chunk) rest (numpending + 1) file_len
          (
            e,
            (λ k.
                stored k
                ∙ rw o (
                    overlay_local _ chunk _ _ k (st k) ∙ sym (overlay-append start put chunk f k))),
            omega (arith, ap length e, length-append (put ++ chunk) rest, length-append put chunk),
            omega (arith, more, out),
          )
          (omega arith) (omega arith)

    -- The send of the next bytes
    send_next-Good :
        (fuel : ℕ) (w : W) (offset : ℕ) (put : List ℕ) (b : ℕ) (bs : List ℕ)
        (numpending file_len : ℕ)
        → Continues fuel
        → Sent w offset put (b ∷ bs) numpending
        → numpending < window
        → start + length all < 2 ^ 32
        → 0 < max_write
        → length (b ∷ bs) * 2 + numpending ≤ fuel
        → Good (
            send_next rpc max_write
              (awrite_loop rpc window max_write (length all) fuel)
              w
              offset
              (b ∷ bs)
              numpending
              file_len)
    unfolding send_next
    send_next-Good fuel w offset put b bs numpending file_len again (e, st, o, out) n h m fu =
        after_send-Good fuel w offset put (take len (b ∷ bs)) (drop len (b ∷ bs)) len numpending
          file_len _ again (omega (arith, length-take len (b ∷ bs)))
          (append_assoc put (take len (b ∷ bs)) (drop len (b ∷ bs))
            ∙ ap (λ x. put ++ x) (take-append-drop len (b ∷ bs))
            ∙ e)
          st o out n h (omega (arith, length-drop len (b ∷ bs))) refl
      where
        len : ℕ
        len = min (length (b ∷ bs)) max_write

    -- An answer is waited for where calls are outstanding; `go` is the rest of the round.
    answered-Good :
        (go : W → ℕ → Writing W) (w : W) (offset : ℕ) (put buf : List ℕ) (numpending file_len : ℕ)
        (a : Attrstat)
        → Sent w offset put buf numpending
        → 0 < numpending
        → (rpc.wait_write w).1 ≡ a
        → ((v : W) (len : ℕ) → Sent v offset put buf (numpending - 1) → Good (go v len))
        → Good (answered rpc go file_len (rpc.wait_write w).0 a)
    unfolding answered
    answered-Good go w offset put buf numpending file_len Attrstat.no_reply (e, st, o, out) p a
          rest =
        inr (inl (w, omega arith, a))
    answered-Good go w offset put buf numpending file_len (Attrstat.refused s) (e, st, o, out) p a
          rest =
        inr (inr (w, s, omega arith, a))
    answered-Good go w offset put buf numpending file_len (Attrstat.attributes n) (e, st, o, out) p
          a rest =
        let (fewer, same) = server.wait_takes w n (omega arith) a in
        rest _ _ (e, (λ k. same k ∙ st k), o, omega (arith, fewer, out))

    abbrev loop : ℕ → W → ℕ → List ℕ → ℕ → ℕ → Writing W
    loop = awrite_loop rpc window max_write (length all)

    round_waits :
        (fuel : ℕ) (w : W) (offset : ℕ) (buf : List ℕ) (numpending file_len : ℕ)
        → ((length buf == 0) && (numpending == 0)) ≡ false
        → (leb window numpending || ((length buf == 0) && not (numpending == 0))) ≡ true
        → loop (suc fuel) w offset buf numpending file_len
          ≡ answered rpc
              (λ v len. send_next rpc max_write (loop fuel) v offset buf (numpending - 1) len)
              file_len
              (rpc.wait_write w).0
              (rpc.wait_write w).1
    unfolding awrite_loop
    round_waits fuel w offset buf numpending file_len d t = rw (d, t) refl

    round_sends :
        (fuel : ℕ) (w : W) (offset : ℕ) (buf : List ℕ) (numpending file_len : ℕ)
        → ((length buf == 0) && (numpending == 0)) ≡ false
        → (leb window numpending || ((length buf == 0) && not (numpending == 0))) ≡ false
        → loop (suc fuel) w offset buf numpending file_len
          ≡ send_next rpc max_write (loop fuel) w offset buf numpending file_len
    unfolding awrite_loop
    round_sends fuel w offset buf numpending file_len d t = rw (d, t) refl

    round-Good :
        (fuel : ℕ)
        → 0 < window
        → start + length all < 2 ^ 32
        → 0 < max_write
        → Continues fuel
        → Continues (suc fuel)
    unfolding awrite_loop send_next
    round-Good fuel win h m again w offset put [] zero file_len (e, st, o, out) le fu = (
      refl,
      out,
      λ k.
          server.all_settled w out k
          ∙ st k
          ∙ ap (λ x. overlay start x f k) (sym (append-nil put) ∙ e),
    )
    round-Good fuel win h m again w offset put [] (suc n) file_len sent le fu =
        subst Good
          (sym (round_waits fuel w offset [] (suc n) file_len (ground arith) (ground arith)))
          (answered-Good _ w offset put [] (suc n) file_len _ sent (omega arith) refl
            (λ v len s. again v offset put [] (suc n - 1) len s (omega arith) (omega arith)))
    round-Good fuel win h m again w offset put (b ∷ bs) numpending file_len sent le fu =
        elim (Bool-cases (leb window numpending)) [
          | inl full ↦
              subst Good
                (sym (
                  round_waits fuel w offset (b ∷ bs) numpending file_len (ground arith)
                    (ground arith)))
                (answered-Good _ w offset put (b ∷ bs) numpending file_len _ sent (ground arith)
                  refl
                  (λ v len s.
                    send_next-Good fuel v offset put b bs (numpending - 1) len again s
                      (ground arith) h m (omega arith)))
          | inr free ↦
              subst Good
                (sym (
                  round_sends fuel w offset (b ∷ bs) numpending file_len (ground arith)
                    (ground arith)))
                (send_next-Good fuel w offset put b bs numpending file_len again sent (ground arith)
                  h m (omega arith))
        ]

    awrite_loop-Good :
        (fuel : ℕ) → 0 < window → start + length all < 2 ^ 32 → 0 < max_write → Continues fuel
    awrite_loop-Good zero win h m =
        λ w offset put buf numpending file_len sent le fu. absurd (omega arith)
    awrite_loop-Good (suc fuel) win h m = round-Good fuel win h m (awrite_loop-Good fuel win h m)

  -- `nfs_MAWrite` ends. It either stores all bytes at `offset`, returns their number and leaves no call
  -- outstanding, or it fails, and then a call was not sent, or an answer was missing or refused the
  -- write. It never has more than `ng_NumWRPCs` calls outstanding, beyond which the server promises
  -- nothing. The premises: none is outstanding before, `ng_NumWRPCs` and the largest write are not 0,
  -- and the end of the write fits in 32 bits.
  pub ma_write-Stores :
      (max_write_size : ℕ) (w : W) (offset : ℕ) (buf : List ℕ)
      → outstanding w ≡ 0
      → 0 < window
      → 0 < max_write_size
      → offset + length buf < 2 ^ 32
      → Stores rpc window contents outstanding
          (contents w)
          offset
          buf
          (ma_write rpc max_write_size window w offset buf)
  unfolding ma_write overlay
  ma_write-Stores max_write_size w offset buf out win m h =
      awrite_loop-Good (contents w) offset buf (min max_write_size nfs_maxdata) (length buf * 2 + 1)
        win h (omega arith) w offset [] buf 0 0
        (refl, (λ k. sym (server.all_settled w out k)), omega arith, out) (omega arith)
        (omega arith)
