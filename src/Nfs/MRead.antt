-- ===== src/Nfs/MRead.antt =====
-- `nfs_MRead` of src/nfs.c. The loop runs on fuel; the caller's `count` is below 2 ^ 32.
pub mod Contents
use anfs.Base.{
  ℕ, zero, suc, ◌+◌, ◌-◌, ◌%◌, ◌^◌, min, true, false, Option, none, some, List, [], ◌∷◌, ◌++◌,
  length, ◌==◌,
}
use anfs.Nfssupp.{IoErr, nfs_err2io_err_cont, Acttype, client2io_err}
use anfs.Nfs.Calls.{Rpc, Readres}

abbrev pub nfs_maxdata : ℕ
nfs_maxdata = 8192

-- `done`: the bytes that stand in `Buf` and `*FileLen`; `failed`: -1 and `*Res2`.
-- `undefined`: `res` is used and no call was made. `stuck`: the fuel was too little.
pub data Reading (W : Type 0) : Type 0 where
  done : W → List ℕ → ℕ → Reading W
  failed : W → IoErr → Reading W
  undefined : Reading W
  stuck : Reading W

-- What follows the loop: `res` is that of the last call, if there was one.
pub read_end : {W : Type 0} → W → List ℕ → Option ℕ → Reading W
read_end w got none = undefined
read_end w got (some size) = done w got size

module _ {W : Type 0} (rpc : Rpc W) where
  -- One round by the answer of the server; `again` is the rest of the loop.
  pub read_answer :
      (again : W → (offset count : ℕ) → List ℕ → Option ℕ → Reading W)
      → W
      → (offset count : ℕ) → List ℕ
      → Readres
      → Reading W
  read_answer again w offset count got Readres.no_reply = failed w (client2io_err (rpc.clnt_stat w))
  read_answer again w offset count got (Readres.refused s) =
      failed w (nfs_err2io_err_cont s Acttype.read)
  read_answer again w offset count got (Readres.reply [] size) = read_end w got (some size)
  read_answer again w offset count got (Readres.reply (b ∷ bs) size) =
      let len = length (b ∷ bs) in
      again w ((offset + len) % 2 ^ 32) ((count + 2 ^ 32 - len) % 2 ^ 32) (got ++ b ∷ bs)
        (some size)

  -- The `while`, with `max_read` the largest count of a call.
  pub read_loop : (max_read : ℕ) → ℕ → W → (offset count : ℕ) → List ℕ → Option ℕ → Reading W
  read_loop max_read zero w offset count got res = stuck
  read_loop max_read (suc fuel) w offset count got res = elim (count == 0) [
    | true ↦ read_end w got res
    | false ↦
        let (w', answer) = rpc.nfsproc_read w offset (min count max_read) in
        read_answer (read_loop max_read fuel) w' offset count got answer
  ]

-- `nfs_MRead` with `ng_MaxReadSize`
unfoldable pub m_read :
    {W : Type 0} → Rpc W → (max_read_size : ℕ) → W → (offset count : ℕ) → Reading W
unfolding read_loop read_answer read_end
m_read rpc max_read_size w offset count =
    read_loop rpc (min max_read_size nfs_maxdata) (count + 1) w offset count [] none
