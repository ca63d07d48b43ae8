-- ===== src/File/Close/Laws.antt =====
-- `act_END` gives every buffer back, and no failed write is lost without a report.
use anfs.Base.{
  ℕ, ◌+◌, ◌≡◌, refl, sym, ap, ◌∙◌, inl, inr, ◌⊎◌, false, Option, none, some, List, [], ◌∷◌, ◌++◌,
  length, arith, Bool-cases, Option-cases,
}
use mathlib.Core.Path.{ap₂}
use anfs.Nfssupp.{IoErr}
use anfs.Mbuf.{release_mbuf}
use anfs.Fh.{Efh}
use anfs.Locks.{Elock}
use anfs.Wbuf.State.{Run, ok, err, fault}
use anfs.Wbuf.Flush.{Writer}
use anfs.Wbuf.Flush.Contents.{onto, with_bufs, Flushes, flush_cache-Flushes}
use anfs.Wbuf.Write.{has_buffered_data}
use anfs.Rbuf.{Rbufhdr, release_buffered, release_rbuf_data}
use anfs.Rbuf.Coherent.{held}
use anfs.File.{OpenFile, release_read}
use anfs.File.Reads.{IsOpen, visible, no_bufs_of_empty}
use anfs.File.Writes.{release_read-SameFile}
use anfs.File.Close.{
  Ended, end_flushed, end_wbuf, end_rbuf, first_error, end_lists, end_file, Ending, ended, not_open,
  lost, act_end,
}

release_read-held :
    {W : Type 0}
    → (f : OpenFile W)
    → (release_read f).state.mbufs.num_free_mbufs ≡ f.state.mbufs.num_free_mbufs + held f.rbuf
unfolding release_read release_buffered release_rbuf_data release_mbuf
release_read-held f = elim (Option-cases f.rbuf) [
  | inl no_header ↦ ground arith
  | inr (rbh, e) ↦ elim (Option-cases rbh.rbh_data) [
    | inl no_bytes ↦ ground arith
    | inr (a, d) ↦ ground arith
  ]
]

-- The MBuf of a read-ahead buffer, if it has one
abbrev pub held_nodes : Option Rbufhdr → List ℕ
held_nodes none = []
held_nodes (some rbh) = elim rbh.rbh_data [ none ↦ [] | some a ↦ a ∷ [] ]

release_read-nodes :
    {W : Type 0}
    → (f : OpenFile W)
    → (release_read f).state.mbufs.free_mbufs ≡ held_nodes f.rbuf ++ f.state.mbufs.free_mbufs
unfolding release_read release_buffered release_rbuf_data release_mbuf
release_read-nodes f = elim (Option-cases f.rbuf) [
  | inl no_header ↦ ground arith
  | inr (rbh, e) ↦ elim (Option-cases rbh.rbh_data) [
    | inl no_bytes ↦ ground arith
    | inr (a, d) ↦ ground arith
  ]
]

module _ {W : Type 0} (writer : Writer W) where
  open writer use {contents}

  -- Without an error, the server has the file as the program saw it.
  abbrev Stored : OpenFile W → OpenFile W → Option IoErr → Type 0
  Stored f f' none = (k : ℕ) → contents f'.state.world k ≡ visible contents f k
  Stored f f' (some e) = Unit {0}

  -- What the end of the write cache leaves
  abbrev EndsWbuf : OpenFile W → Option (Option IoErr × OpenFile W) → Type 0
  EndsWbuf f none = ⊥
  EndsWbuf f (some (o, f')) =
      (f'.state.wbc.bufs ≡ [])
      × (f'.state.num_free_wbuf_hdrs ≡ f.state.num_free_wbuf_hdrs + length f.state.wbc.bufs)
      × (f'.state.mbufs.num_free_mbufs ≡ f.state.mbufs.num_free_mbufs + length f.state.wbc.bufs)
      × (f'.state.free_wbuf_hdr ≡ onto (λ b. b.addr) f.state.wbc.bufs f.state.free_wbuf_hdr)
      × (f'.state.mbufs.free_mbufs
          ≡ onto (λ b. b.wbh_data) f.state.wbc.bufs f.state.mbufs.free_mbufs)
      × (f'.rbuf ≡ f.rbuf)
      × (f'.efh_res2 ≡ f.efh_res2)
      × Stored f f' o

  end_flushed-EndsWbuf :
      (f : OpenFile W) (r : Run W (Unit {0}))
      → Flushes writer f.state.wbc.bufs f.state r
      → EndsWbuf f (end_flushed f r)
  unfolding end_flushed
  end_flushed-EndsWbuf f (ok a s) (b, h) =
      (b.no_bufs, b.hdrs, b.data_bufs, b.hdr_list, b.data_list, refl, refl, h)
  end_flushed-EndsWbuf f (err e s) b =
      (b.no_bufs, b.hdrs, b.data_bufs, b.hdr_list, b.data_list, refl, refl, tt)
  end_flushed-EndsWbuf f fault h = h

  clean-EndsWbuf :
      (f f' : OpenFile W)
      → f.state.wbc.bufs ≡ []
      → f'.state ≡ f.state
      → f'.rbuf ≡ f.rbuf
      → f'.efh_res2 ≡ f.efh_res2
      → EndsWbuf f (some (none, f'))
  clean-EndsWbuf f f' empty same r e =
      let none_there = ap length empty in
      (
        ap (λ s. s.wbc.bufs) same ∙ empty,
        omega (arith, none_there, ap (λ s. s.num_free_wbuf_hdrs) same),
        omega (arith, none_there, ap (λ s. s.mbufs.num_free_mbufs) same),
        ap (λ s. s.free_wbuf_hdr) same
            ∙ ap (λ bs. onto (λ b. b.addr) bs f.state.free_wbuf_hdr) (sym empty),
        ap (λ s. s.mbufs.free_mbufs) same
            ∙ ap (λ bs. onto (λ b. b.wbh_data) bs f.state.mbufs.free_mbufs) (sym empty),
        r,
        e,
        λ k.
            ap (λ s. contents s.world k) same
            ∙ ap (λ bs. with_bufs f.state.mem bs (contents f.state.world) k) (sym empty),
      )

  end_wbuf-EndsWbuf :
      (rbh : Rbufhdr) (f : OpenFile W) → IsOpen contents rbh f → EndsWbuf f (end_wbuf writer f)
  unfolding end_wbuf
  end_wbuf-EndsWbuf rbh f o = elim (Bool-cases f.has_wbuf) [
    | inr absent ↦ rw (absent, end_wbuf) (clean-EndsWbuf f f (o.no_cache absent) refl refl refl)
    | inl attached ↦ elim (Bool-cases (has_buffered_data f.state)) [
      | inl dirty ↦
          rw (attached, dirty, end_wbuf)
            (end_flushed-EndsWbuf f _ (flush_cache-Flushes writer f.state o.counted o.valid))
      | inr clean ↦
          rw (attached, clean, end_wbuf)
            (clean-EndsWbuf f (record f { has_wbuf = false })
              (no_bufs_of_empty f o.counted o.no_cache (ground arith)) refl refl refl)
    ]
  ]

  -- An error that is reported is the one that a cached write left, if it left one. Without a report
  -- there was none, and the server has the file as the program saw it.
  abbrev pub Reports : OpenFile W → Ended W → Option IoErr → Type 0
  Reports f e none =
      (f.efh_res2 ≡ none) × ((k : ℕ) → contents e.file.state.world k ≡ visible contents f k)
  Reports f e (some x) = (f.efh_res2 ≡ some x) ⊎ (f.efh_res2 ≡ none)

  -- The outcome of `act_END` on a file
  abbrev pub Closes : OpenFile W → Ending W → Type 0
  Closes f (ended e) =
      (e.file.state.mbufs.num_free_mbufs
        ≡ f.state.mbufs.num_free_mbufs + length f.state.wbc.bufs + held f.rbuf)
      × (e.file.state.num_free_wbuf_hdrs ≡ f.state.num_free_wbuf_hdrs + length f.state.wbc.bufs)
      × (e.file.state.free_wbuf_hdr ≡ onto (λ b. b.addr) f.state.wbc.bufs f.state.free_wbuf_hdr)
      × (e.file.state.mbufs.free_mbufs
          ≡ held_nodes f.rbuf ++ onto (λ b. b.wbh_data) f.state.wbc.bufs f.state.mbufs.free_mbufs)
      × (e.file.state.wbc.bufs ≡ [])
      × (e.file.rbuf ≡ none)
      × Reports f e e.outcome
  Closes f (not_open e) = ⊥
  Closes f lost = ⊥

  first_error-Reports :
      (f : OpenFile W) (f' : OpenFile W) (e : Ended W) (p o : Option IoErr)
      → p ≡ f.efh_res2
      → e.file.state.world ≡ f'.state.world
      → Stored f f' o
      → Reports f e (first_error p o)
  unfolding first_error
  first_error-Reports f f' e none none q w st = (sym q, λ k. ap (λ v. contents v k) w ∙ st k)
  first_error-Reports f f' e none (some x) q w st = inr (sym q)
  first_error-Reports f f' e (some y) o q w st = inl (sym q)

  end_lists-Closes :
      (fhs : List Efh) (locks : List Elock) (f : OpenFile W)
      (r : Option (Option IoErr × OpenFile W))
      → EndsWbuf f r
      → Closes f
          (elim (elim r as (λ x. Option (Ended W)) [
            | none ↦ none
            | some (e, f') ↦ some (end_lists fhs locks f' e)
          ])
            as (λ x. Ending W) [ none ↦ lost | some e ↦ ended e ])
  unfolding end_lists end_rbuf first_error
  end_lists-Closes fhs locks f none h = h
  end_lists-Closes fhs locks f (some (o, f')) (b, hdrs, bufs, hdr_list, data_list, r, e, st) =
      let released = release_read-SameFile f' in
      (
        omega (arith, release_read-held f', bufs, ap held r),
        hdrs,
        hdr_list,
        release_read-nodes f' ∙ ap₂ (λ h l. held_nodes h ++ l) r data_list,
        b,
        refl,
        first_error-Reports f f' (end_lists fhs locks f' o) f'.efh_res2 o e released.same_world st,
      )

  -- `act_END` on an open handle puts every buffer of the file onto the free lists of the pools, the
  -- headers and MBufs for writing and the MBuf for reading, and counts them, whether the flush succeeds or fails, and uses no pointer that is not valid.
  -- If it reports success, no cached write failed before, and the server has the file as the program
  -- saw it. If it reports an error, that is the one of a cached write that failed before, where there
  -- was one.
  pub act_end-Closes :
      (rbh : Rbufhdr) (fhs : List Efh) (locks : List Elock) (f : OpenFile W)
      → IsOpen contents rbh f
      → Closes f (act_end writer fhs locks (some f))
  unfolding act_end end_file
  act_end-Closes rbh fhs locks f o =
      end_lists-Closes fhs locks f (end_wbuf writer f) (end_wbuf-EndsWbuf rbh f o)
