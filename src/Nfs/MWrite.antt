-- ===== src/Nfs/MWrite.antt =====
-- `nfs_MWrite` of src/nfs.c. The loop runs on fuel.
pub mod Contents
use anfs.Base.{
  ℕ, zero, suc, ◌+◌, ◌%◌, ◌^◌, min, Option, none, some, List, [], ◌∷◌, length, take, drop,
}
use anfs.Nfssupp.{IoErr, nfs_err2io_err_cont, Acttype, client2io_err}
use anfs.Nfs.Calls.{Rpc, Attrstat}
use anfs.Nfs.MRead.{nfs_maxdata}

-- `done`: the length that is returned and `*FileLen`; `failed`: -1 and `*Res2`.
-- `undefined`: `res` is used and no call was made. `stuck`: the fuel was too little.
pub data Writing (W : Type 0) : Type 0 where
  done : W → ℕ → ℕ → Writing W
  failed : W → IoErr → Writing W
  undefined : Writing W
  stuck : Writing W

-- What follows the loop: `res` is that of the last call, if there was one.
pub write_end : {W : Type 0} → W → (arg_count : ℕ) → Option ℕ → Writing W
write_end w arg_count none = undefined
write_end w arg_count (some size) = done w arg_count size

module _ {W : Type 0} (rpc : Rpc W) where
  -- One round by the answer of the server; `again` is the rest of the loop.
  pub write_answer : (again : W → ℕ → Option ℕ → Writing W) → W → ℕ → Attrstat → Writing W
  write_answer again w offset Attrstat.no_reply = failed w (client2io_err (rpc.clnt_stat w))
  write_answer again w offset (Attrstat.refused s) = failed w (nfs_err2io_err_cont s Acttype.write)
  write_answer again w offset (Attrstat.attributes size) = again w offset (some size)

  -- The `while`, with `max_write` the largest length of a call; `buf` is what is left of `Buf`.
  pub write_loop :
      (max_write arg_count : ℕ) → ℕ → W → (offset : ℕ) → (buf : List ℕ) → Option ℕ → Writing W
  write_loop max_write arg_count zero w offset buf res = stuck
  write_loop max_write arg_count (suc fuel) w offset [] res = write_end w arg_count res
  write_loop max_write arg_count (suc fuel) w offset (b ∷ buf) res =
      let len = min (length (b ∷ buf)) max_write in
      let (w', answer) = rpc.nfsproc_write w offset (take len (b ∷ buf)) in
      write_answer (λ v o r. write_loop max_write arg_count fuel v o (drop len (b ∷ buf)) r) w'
        ((offset + len) % 2 ^ 32) answer

-- `nfs_MWrite` with `ng_MaxWriteSize`, of the bytes `buf`
unfoldable pub m_write :
    {W : Type 0} → Rpc W → (max_write_size : ℕ) → W → (offset : ℕ) → List ℕ → Writing W
unfolding write_loop write_answer write_end
m_write rpc max_write_size w offset buf =
    write_loop rpc (min max_write_size nfs_maxdata) (length buf) (length buf + 1) w offset buf none
