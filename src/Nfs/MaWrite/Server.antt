-- ===== src/Nfs/MaWrite/Server.antt =====
-- What a server promises for the outstanding calls of `nfs_MAWrite`, and the outcome of a write
use anfs.Base.{ℕ, ◌+◌, ◌<◌, ◌≡◌, ◌⊎◌, true, false, List, length, Bytes, overlay}
use anfs.Nfssupp.{Nfsstat}
use anfs.Nfs.Calls.{Attrstat}
use anfs.Nfs.MWrite.{Writing, done, failed, undefined, stuck}
use anfs.Nfs.MaWrite.{Async}

-- A server that takes up to `window` outstanding calls. `settled` is what the contents of the file are
-- once all outstanding calls are executed: a call that is sent adds its bytes; an answer takes
-- one call off; and when none is outstanding the contents are settled.
pub record AsyncServer {W : Type 0} (rpc : Async W) (window : ℕ) : Type 0 where
  pub contents : W → Bytes
  pub settled : W → Bytes
  pub outstanding : W → ℕ
  pub send_adds :
      (w : W) (o : ℕ) (bs : List ℕ)
      → outstanding w < window
      → (rpc.send_write w o bs).1 ≡ true
      → (outstanding (rpc.send_write w o bs).0 ≡ outstanding w + 1)
        × ((k : ℕ) → settled (rpc.send_write w o bs).0 k ≡ overlay o bs (settled w) k)
  pub wait_takes :
      (w : W) (n : ℕ)
      → 0 < outstanding w
      → (rpc.wait_write w).1 ≡ Attrstat.attributes n
      → (outstanding (rpc.wait_write w).0 + 1 ≡ outstanding w)
        × ((k : ℕ) → settled (rpc.wait_write w).0 k ≡ settled w k)
  pub all_settled : (w : W) → outstanding w ≡ 0 → (k : ℕ) → contents w k ≡ settled w k

-- A call that went wrong: one could not be sent with fewer than `window` outstanding, or the answer to
-- an outstanding one is missing or refuses it.
abbrev pub WentWrong : {W : Type 0} → Async W → (W → ℕ) → (window : ℕ) → Type 0
WentWrong {W} rpc outstanding window =
    ((v : W) × (o : ℕ) × (bs : List ℕ) × (outstanding v < window)
      × ((rpc.send_write v o bs).1 ≡ false))
    ⊎ ((v : W) × (0 < outstanding v) × ((rpc.wait_write v).1 ≡ Attrstat.no_reply))
    ⊎ ((v : W) × (s : Nfsstat) × (0 < outstanding v) × ((rpc.wait_write v).1 ≡ Attrstat.refused s))

-- The outcome of a write of `buf` at `offset` into a file with contents `f`
abbrev pub Stores :
    {W : Type 0}
    → Async W
    → (window : ℕ) → (W → Bytes)
    → (W → ℕ)
    → Bytes
    → (offset : ℕ) → List ℕ
    → Writing W
    → Type 0
Stores rpc window contents outstanding f offset buf (done w n size) =
    (n ≡ length buf) × (outstanding w ≡ 0) × ((k : ℕ) → contents w k ≡ overlay offset buf f k)
Stores rpc window contents outstanding f offset buf (failed w e) = WentWrong rpc outstanding window
Stores rpc window contents outstanding f offset buf undefined = ⊥
Stores rpc window contents outstanding f offset buf stuck = ⊥
