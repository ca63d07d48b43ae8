-- ===== src/Nfs/MaWrite.antt =====
-- `nfs_MAWrite` of src/nfs.c, which keeps several write calls outstanding. The loop runs on fuel.
pub mod Contents
pub mod Server
pub mod Tests
use anfs.Base.{
  ℕ, zero, suc, ◌+◌, ◌*◌, ◌-◌, ◌%◌, ◌^◌, min, max, Bool, true, false, ◌&&◌, ◌||◌, not, List, [],
  ◌∷◌, length, take, drop, ◌==◌, ltb, leb, if◌then◌else◌,
}
use anfs.Nfssupp.{nfs_err2io_err_cont, Acttype, client2io_err}
use anfs.Nfs.Calls.{Attrstat}
use anfs.Nfs.MRead.{nfs_maxdata}
use anfs.Nfs.MWrite.{Writing, done, failed, stuck}

-- The calls: to send a write, with whether it was sent, to wait for the answer to one, and to give up
-- the outstanding ones
pub record Async (W : Type 0) : Type 0 where
  pub send_write : W → (offset : ℕ) → List ℕ → W × Bool
  pub wait_write : W → W × Attrstat
  pub clnt_abort : W → W
  pub clnt_stat : W → ℕ

module _ {W : Type 0} (rpc : Async W) where
  -- What follows an answer; `go` is the rest of the round.
  unfoldable pub answered :
      (go : W → (file_len : ℕ) → Writing W) → (file_len : ℕ) → W → Attrstat → Writing W
  answered go file_len w Attrstat.no_reply =
      failed (rpc.clnt_abort w) (client2io_err (rpc.clnt_stat (rpc.clnt_abort w)))
  answered go file_len w (Attrstat.refused s) =
      failed (rpc.clnt_abort w) (nfs_err2io_err_cont s Acttype.write)
  answered go file_len w (Attrstat.attributes size) = go w (max size file_len)

  -- What follows a send; `go` is the rest of the loop.
  unfoldable pub after_send : (go : W → Writing W) → W → (sent : Bool) → Writing W
  after_send go w true = go w
  after_send go w false = failed w (client2io_err (rpc.clnt_stat w))

  -- The second half of a round; `go` is the rest of the loop.
  unfoldable pub send_next :
      (max_write : ℕ)
      → (go : W → (offset : ℕ) → (buf : List ℕ) → (numpending file_len : ℕ) → Writing W) → W
      → (offset : ℕ) → (buf : List ℕ) → (numpending file_len : ℕ) → Writing W
  unfolding after_send
  send_next max_write go w offset [] numpending file_len = go w offset [] numpending file_len
  send_next max_write go w offset (b ∷ bs) numpending file_len =
      let len = min (length (b ∷ bs)) max_write in
      let (w', ok) = rpc.send_write w offset (take len (b ∷ bs)) in
      after_send (λ v. go v ((offset + len) % 2 ^ 32) (drop len (b ∷ bs)) (numpending + 1) file_len)
        w' ok

  -- The `while`; `buf` is what is left of `Buf`, `count` its length.
  unfoldable pub awrite_loop :
      (num_rpcs max_write arg_count : ℕ)
      → ℕ
      → W
      → (offset : ℕ) → (buf : List ℕ) → (numpending file_len : ℕ) → Writing W
  unfolding answered send_next
  awrite_loop num_rpcs max_write arg_count zero w offset buf numpending file_len = stuck
  awrite_loop num_rpcs max_write arg_count (suc fuel) w offset buf numpending file_len =
      if (length buf == 0) && (numpending == 0)
      then done w arg_count file_len
      else (let go = awrite_loop num_rpcs max_write arg_count fuel in
          if leb num_rpcs numpending || ((length buf == 0) && not (numpending == 0))
          then (let (w', answer) = rpc.wait_write w in
              answered (λ v len. send_next max_write go v offset buf (numpending - 1) len) file_len
                w' answer)
          else send_next max_write go w offset buf numpending file_len)

-- `nfs_MAWrite` with `ng_MaxWriteSize` and `ng_NumWRPCs`, of the bytes `buf`
unfoldable pub ma_write :
    {W : Type 0} → Async W → (max_write_size num_w_rpcs : ℕ) → W → (offset : ℕ) → List ℕ → Writing W
unfolding awrite_loop
ma_write rpc max_write_size num_w_rpcs w offset buf =
    awrite_loop rpc num_w_rpcs (min max_write_size nfs_maxdata) (length buf) (length buf * 2 + 1) w
      offset buf 0 0
