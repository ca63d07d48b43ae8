-- ===== src/Wbuf/Flush/Contents.antt =====
-- A flush writes back every dirty range and returns every buffer to the pools.
use anfs.Base.{
  ℕ, ◌+◌, ◌-◌, ◌<◌, ◌^◌, ◌≡◌, refl, ap, ◌∙◌, List, [], ◌∷◌, length, Bytes, overlay, overlay_local,
  length-slice, arith,
}
use mathlib.Core.Path.{sym, subst}
use anfs.Mbuf.{release_mbuf}
use anfs.Nfs.MWrite.{Writing}
use anfs.Nfs.MWrite.Contents.{Writes}
use anfs.Nfssupp.{IoErr}
use anfs.Wbuf.Info.{Wbufhdrinfo, IsSeparated, mbufsize}
use anfs.Wbuf.State.{Wbufhdr, State, Run, ok, err, fault, release_wbuf}
use anfs.Wbuf.Flush.{
  Writer, Sent, sent, unsent, invalid, range_bytes, after_send, send_ranges, emptied, release_all,
  after_ranges, flush_bufs, flush_cache,
}

-- The contents of the file once the ranges of a buffer at `offs` are written over `f`.
abbrev pub with_ranges : (offs : ℕ) → Bytes → List Wbufhdrinfo → Bytes → Bytes
with_ranges offs bytes [] f = f
with_ranges offs bytes (wbi ∷ rest) f =
    with_ranges offs bytes rest (overlay (offs + wbi.wbi_from) (range_bytes bytes wbi) f)

-- The contents of the file as a program that uses the cache means it: the buffers written over `f`.
abbrev pub with_bufs : (ℕ → Bytes) → List Wbufhdr → Bytes → Bytes
with_bufs mem [] f = f
with_bufs mem (wbh ∷ rest) f =
    with_bufs mem rest (with_ranges wbh.wbh_file_offs (mem wbh.wbh_data) wbh.wbh_info f)

-- Every buffer lies below the end of the address range, with separated ranges.
abbrev pub AreValid : List Wbufhdr → Type 0
AreValid [] = Unit {0}
AreValid (wbh ∷ rest) =
    (wbh.wbh_file_offs + mbufsize < 2 ^ 32) × IsSeparated 0 wbh.wbh_info × AreValid rest

pub with_ranges_local :
    (offs : ℕ) (bytes : Bytes) (infos : List Wbufhdrinfo) (f g : Bytes) (k : ℕ)
    → f k ≡ g k
    → with_ranges offs bytes infos f k ≡ with_ranges offs bytes infos g k
with_ranges_local offs bytes [] f g k e = e
with_ranges_local offs bytes (wbi ∷ rest) f g k e =
    with_ranges_local offs bytes rest _ _ k (overlay_local _ _ f g k e)

pub with_bufs_local :
    (mem : ℕ → Bytes) (bufs : List Wbufhdr) (f g : Bytes) (k : ℕ)
    → f k ≡ g k
    → with_bufs mem bufs f k ≡ with_bufs mem bufs g k
with_bufs_local mem [] f g k e = e
with_bufs_local mem (wbh ∷ rest) f g k e =
    with_bufs_local mem rest _ _ k (with_ranges_local wbh.wbh_file_offs _ wbh.wbh_info f g k e)

-- The free list `l` after the release of what `part` names of each buffer, the first one first
abbrev pub onto : (part : Wbufhdr → ℕ) → List Wbufhdr → (l : List ℕ) → List ℕ
onto part [] l = l
onto part (wbh ∷ rest) l = onto part rest (part wbh ∷ l)

-- What a flush leaves of the state: an empty cluster, and all headers and MBufs in the lists and the
-- counters of the pools.
pub record Returned {W : Type 0} (bufs : List Wbufhdr) (s t : State W) : Type 0 where
  pub no_bufs : t.wbc.bufs ≡ []
  pub none_used : t.wbc.wbufs_used ≡ 0
  pub hdrs : t.num_free_wbuf_hdrs ≡ s.num_free_wbuf_hdrs + length bufs
  pub data_bufs : t.mbufs.num_free_mbufs ≡ s.mbufs.num_free_mbufs + length bufs
  pub hdr_list : t.free_wbuf_hdr ≡ onto (λ b. b.addr) bufs s.free_wbuf_hdr
  pub data_list : t.mbufs.free_mbufs ≡ onto (λ b. b.wbh_data) bufs s.mbufs.free_mbufs
  pub same_memory : t.mem ≡ s.mem

module _ {W : Type 0} (writer : Writer W) where
  open writer use {contents}

  abbrev Sends : Bytes → Sent W → Type 0
  Sends f (sent w) = (k : ℕ) → contents w k ≡ f k
  Sends f (unsent w e) = Unit {0}
  Sends f invalid = ⊥

  Sends-resp : (f g : Bytes) (r : Sent W) → ((k : ℕ) → f k ≡ g k) → Sends f r → Sends g r
  Sends-resp f g (sent w) e h = λ k. h k ∙ e k
  Sends-resp f g (unsent w x) e h = tt
  Sends-resp f g invalid e h = elim h [ ]

  after_send-Sends :
      (again : W → Sent W) (change : Bytes → Bytes) (f : Bytes) (o : ℕ) (buf : List ℕ)
      → 0 < length buf
      → ((w : W)
          → ((k : ℕ) → contents w k ≡ overlay o buf f k)
          → Sends (change (overlay o buf f)) (again w))
      → (r : Writing W) → Writes contents f o buf r
      → Sends (change (overlay o buf f)) (after_send again r)
  unfolding after_send
  after_send-Sends again change f o buf l next (Writing.done w n size) h = next w h.1
  after_send-Sends again change f o buf l next (Writing.failed w e) h = tt
  after_send-Sends again change f o buf l next Writing.undefined h =
      absurd (omega (arith, ap length h))
  after_send-Sends again change f o buf l next Writing.stuck h = elim h [ ]

  send_ranges-Sends :
      (offs : ℕ) (bytes : Bytes) (infos : List Wbufhdrinfo) (low : ℕ) (w : W)
      → IsSeparated low infos
      → offs + mbufsize < 2 ^ 32
      → Sends (with_ranges offs bytes infos (contents w)) (send_ranges writer offs bytes infos w)
  unfolding send_ranges
  send_ranges-Sends offs bytes [] low w sep h = λ k. refl
  send_ranges-Sends offs bytes (wbi ∷ rest) low w sep h =
      let len = length-slice bytes wbi.wbi_from (wbi.wbi_to + 1 - wbi.wbi_from) in
      after_send-Sends _ (with_ranges offs bytes rest) (contents w) (offs + wbi.wbi_from)
        (range_bytes bytes wbi) (omega arith)
        (λ v e.
          Sends-resp _ _ _ (λ k. with_ranges_local offs bytes rest _ _ k (e k))
            (send_ranges-Sends offs bytes rest (wbi.wbi_to + 2) v sep.3 h))
        _ (writer.nfs_write-Writes w (offs + wbi.wbi_from) (range_bytes bytes wbi) (omega arith))

  -- The outcome of a flush of `bufs` in the state `s`.
  abbrev pub Flushes : List Wbufhdr → State W → Run W (Unit {0}) → Type 0
  Flushes bufs s (ok _ t) =
      Returned bufs s t × ((k : ℕ) → contents t.world k ≡ with_bufs s.mem bufs (contents s.world) k)
  Flushes bufs s (err e t) = Returned bufs s t
  Flushes bufs s fault = ⊥

  Returned-cons :
      (wbh : Wbufhdr) (bufs : List Wbufhdr) (s t : State W) (w : W)
      → Returned bufs (release_wbuf wbh (record s { world = w })) t
      → Returned (wbh ∷ bufs) s t
  unfolding release_wbuf release_mbuf
  Returned-cons wbh bufs s t w r = record {
    no_bufs = r.no_bufs;
    none_used = r.none_used;
    hdrs = omega (arith, r.hdrs);
    data_bufs = omega (arith, r.data_bufs);
    hdr_list = r.hdr_list;
    data_list = r.data_list;
    same_memory = r.same_memory;
  }

  Returned-emptied : (s : State W) → Returned [] s (emptied s)
  unfolding emptied
  Returned-emptied s = ground arith

  -- The outcome of giving up.
  abbrev Fails : List Wbufhdr → State W → Run W (Unit {0}) → Type 0
  Fails bufs s (ok _ t) = ⊥
  Fails bufs s (err e t) = Returned bufs s t
  Fails bufs s fault = ⊥

  Fails-cons :
      (wbh : Wbufhdr) (bufs : List Wbufhdr) (s : State W) (w : W) (r : Run W (Unit {0}))
      → Fails bufs (release_wbuf wbh (record s { world = w })) r
      → Fails (wbh ∷ bufs) s r
  Fails-cons wbh bufs s w (err e t) h = Returned-cons wbh bufs s t w h
  Fails-cons wbh bufs s w (ok a t) h = elim h [ ]
  Fails-cons wbh bufs s w fault h = elim h [ ]

  Flushes-of_Fails :
      (bufs : List Wbufhdr) (s : State W) (r : Run W (Unit {0})) → Fails bufs s r → Flushes bufs s r
  Flushes-of_Fails bufs s (err e t) h = h
  Flushes-of_Fails bufs s (ok a t) h = elim h [ ]
  Flushes-of_Fails bufs s fault h = elim h [ ]

  release_all-Fails :
      (e : IoErr) (bufs : List Wbufhdr) (s : State W)
      → Fails bufs s (release_all e (length bufs) bufs s)
  unfolding release_all
  release_all-Fails e [] s = Returned-emptied s
  release_all-Fails e (wbh ∷ rest) s =
      Fails-cons wbh rest s s.world _ (release_all-Fails e rest (release_wbuf wbh s))

  Flushes-cons :
      (wbh : Wbufhdr) (bufs : List Wbufhdr) (s : State W) (w : W) (r : Run W (Unit {0}))
      → ((k : ℕ)
          → contents w k
            ≡ with_ranges wbh.wbh_file_offs (s.mem wbh.wbh_data) wbh.wbh_info (contents s.world) k)
      → Flushes bufs (release_wbuf wbh (record s { world = w })) r
      → Flushes (wbh ∷ bufs) s r
  unfolding release_wbuf
  Flushes-cons wbh bufs s w (ok a t) e h =
      (Returned-cons wbh bufs s t w h.0, λ k. h.1 k ∙ with_bufs_local s.mem bufs _ _ k (e k))
  Flushes-cons wbh bufs s w (err x t) e h = Returned-cons wbh bufs s t w h
  Flushes-cons wbh bufs s w fault e h = elim h [ ]

  after_ranges-Flushes :
      (again : State W → Run W (Unit {0})) (wbh : Wbufhdr) (rest : List Wbufhdr) (s : State W)
      → ((t : State W) → Flushes rest t (again t))
      → (r : Sent W)
      → Sends (with_ranges wbh.wbh_file_offs (s.mem wbh.wbh_data) wbh.wbh_info (contents s.world)) r
      → Flushes (wbh ∷ rest) s (after_ranges again (length rest) wbh rest s r)
  unfolding after_ranges
  after_ranges-Flushes again wbh rest s next (sent w) h = Flushes-cons wbh rest s w _ h (next _)
  after_ranges-Flushes again wbh rest s next (unsent w e) h = Flushes-of_Fails (wbh ∷ rest) s _ (
      Fails-cons wbh rest s w _
        (release_all-Fails e rest (release_wbuf wbh (record s { world = w }))))
  after_ranges-Flushes again wbh rest s next invalid h = elim h [ ]

  flush_bufs-Flushes :
      (bufs : List Wbufhdr) (s : State W)
      → AreValid bufs
      → Flushes bufs s (flush_bufs writer (length bufs) bufs s)
  unfolding flush_bufs emptied
  flush_bufs-Flushes [] s v = (Returned-emptied s, λ k. refl)
  flush_bufs-Flushes (wbh ∷ rest) s v =
      after_ranges-Flushes _ wbh rest s (λ t. flush_bufs-Flushes rest t v.2) _
        (send_ranges-Sends _ _ wbh.wbh_info 0 s.world v.1 v.0)

  -- A flush of a cluster that counts its buffers, with valid buffers, uses no pointer that is not
  -- valid, leaves the cluster empty and puts every header and every MBuf onto the free lists of the
  -- pools, which count them, whether it succeeds or fails. If it succeeds, the contents of the file are the old ones with every dirty
  -- range written over them.
  pub flush_cache-Flushes :
      (s : State W)
      → s.wbc.wbufs_used ≡ length s.wbc.bufs
      → AreValid s.wbc.bufs
      → Flushes s.wbc.bufs s (flush_cache writer s)
  unfolding flush_cache
  flush_cache-Flushes s e v =
      subst (λ n. Flushes s.wbc.bufs s (flush_bufs writer n s.wbc.bufs s)) (sym e)
        (flush_bufs-Flushes s.wbc.bufs s v)
