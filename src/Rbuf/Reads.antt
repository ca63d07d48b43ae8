-- ===== src/Rbuf/Reads.antt =====
-- `rb_ReadBuf` gives bytes of the file and keeps the buffer coherent.
use anfs.Base.{
  ℕ, ◌+◌, ◌-◌, ◌^◌, ◌≤◌, ◌<◌, ◌≡◌, ◌≢◌, refl, sym, ap, ◌∙◌, ◌⊎◌, inl, inr, true, ◌&&◌, Option, none,
  some, List, [], length, slice, ◌==◌, ltb, leb, not, arith, Bool-cases, Option-cases,
}
use mathlib.Core.Path.{subst}
use anfs.Nfs.Calls.{Rpc, Server}
use anfs.Nfs.MRead.Contents.{m_read-Reads}
use anfs.Mbuf.{Mbufs, obtain_mbuf, release_mbuf}
use anfs.Mbuf.Laws.{first_of_positive}
use anfs.Wbuf.Info.{mbufsize}
use anfs.Rbuf.{
  Rbufhdr, RState, rbufferlimit, obtain_rbuf_data, release_rbuf_data, release_buffered, buffered,
  read_on, read_through, read_past, read_buf,
}
use anfs.Rbuf.Coherent.{
  HasBytes, IsCoherent, held, ReadsBuf, direct-ReadsBuf, refilled-ReadsBuf, buffered-slice,
}

module _ {W : Type 0} (rpc : Rpc W) (server : Server rpc) (max_read_size : ℕ) where
  open server use {contents, size}

  read_on-ReadsBuf :
      (free : ℕ) (rbh : Rbufhdr) (a : ℕ) (got : List ℕ) (num : ℕ) (s : RState W)
      → 0 < max_read_size
      → got ≡ slice (contents s.world) s.file_pos (length got)
      → length got ≤ num
      → num ≤ rbufferlimit
      → s.file_pos + num + mbufsize < 2 ^ 32
      → (length got < num) ⊎ IsCoherent (contents s.world) s.mem s.rbuf
      → held s.rbuf ≡ 1
      → s.mbufs.num_free_mbufs + 1 ≡ free
      → ReadsBuf contents size
          (contents s.world)
          (size s.world)
          free
          s.file_pos
          num
          (read_on rpc max_read_size rbh a got num s)
  unfolding read_on
  read_on-ReadsBuf free rbh a got num s m g l lim fits c h e =
      elim (Bool-cases (num - length got == 0)) [
        | inl all ↦
            rw (all, read_on)
              ((refl, refl, coherent all c, omega arith), g, omega arith, refl, ground arith)
        | inr more ↦
            rw (more, read_on)
              (refilled-ReadsBuf contents size (contents s.world) (size s.world) free rbh a
                s.file_pos got num s _ g (ground arith) lim refl e
                (m_read-Reads rpc server max_read_size s.world (s.file_pos + length got) mbufsize m
                  (omega arith)))
      ]
    where
      coherent :
          (num - length got == 0) ≡ true
          → (length got < num) ⊎ IsCoherent (contents s.world) s.mem s.rbuf
          → IsCoherent (contents s.world) s.mem s.rbuf
      coherent all (inl fewer) = absurd (ground arith)
      coherent all (inr c) = c

  obtain_rbuf_data-some :
      (rbh : Rbufhdr) (s : RState W)
      → s.mbufs.num_free_mbufs ≡ length s.mbufs.free_mbufs
      → 0 < s.mbufs.num_free_mbufs
      → (a : ℕ) × (pool : Mbufs) × (obtain_rbuf_data rbh s
          ≡ some (
            a,
            record rbh { rbh_data = some a },
            record s { mbufs = pool; rbuf = some (record rbh { rbh_data = some a }) },
          ))
        × (pool.num_free_mbufs + 1 ≡ s.mbufs.num_free_mbufs)
  unfolding obtain_rbuf_data obtain_mbuf
  obtain_rbuf_data-some rbh s counted h =
      let (mbn, rest, e) = first_of_positive s.mbufs.free_mbufs (omega arith) in
      (
        mbn,
        record (s.mbufs) { num_free_mbufs = s.mbufs.num_free_mbufs - 1; free_mbufs = rest },
        ground arith,
        omega arith,
      )

  held-some : (rbh : Rbufhdr) (a : ℕ) → rbh.rbh_data ≡ some a → held (some rbh) ≡ 1
  held-some rbh a d = rw d refl

  held-none : (rbh : Rbufhdr) → rbh.rbh_data ≡ none → held (some rbh) ≡ 0
  held-none rbh d = rw d refl

  read_through-ReadsBuf :
      (free : ℕ) (rbh : Rbufhdr) (at : Option ℕ) (num : ℕ) (s : RState W)
      → 0 < max_read_size
      → num ≤ rbufferlimit
      → 0 < num
      → s.file_pos + num + mbufsize < 2 ^ 32
      → rbh.rbh_data ≡ at
      → s.rbuf ≡ some rbh
      → IsCoherent (contents s.world) s.mem (some rbh)
      → s.mbufs.num_free_mbufs ≡ length s.mbufs.free_mbufs
      → (at ≢ none) ⊎ (0 < s.mbufs.num_free_mbufs)
      → held (some rbh) + s.mbufs.num_free_mbufs ≡ free
      → ReadsBuf contents size
          (contents s.world)
          (size s.world)
          free
          s.file_pos
          num
          (read_through rpc max_read_size rbh num s)
  unfolding read_through slice
  read_through-ReadsBuf free rbh (some a) num s m lim p fits d e c counted some_free q =
      let has : slice (s.mem a) 0 rbh.rbh_data_len
          ≡ slice (contents s.world) rbh.rbh_file_offs rbh.rbh_data_len =
        subst (HasBytes (contents s.world) s.mem rbh.rbh_file_offs rbh.rbh_data_len) d c in
      let (g, l) = buffered-slice contents size (contents s.world) rbh a num s has in
      rw (d, read_through)
        (read_on-ReadsBuf free rbh a (buffered rbh a num s) num s m g l lim fits
          (inr (subst (IsCoherent (contents s.world) s.mem) (sym e) c))
          (ap held e ∙ held-some rbh a d) (omega (arith, held-some rbh a d)))
  read_through-ReadsBuf free rbh none num s m lim p fits d e c counted some_free q =
      let (a, pool, got, n) = obtain_rbuf_data-some rbh s counted (ground arith) in
      rw (d, got, read_through)
        (read_on-ReadsBuf free (record rbh { rbh_data = some a }) a [] num _ m refl (omega arith)
          lim fits (inl p) refl (omega (arith, held-none rbh d)))

  read_past-ReadsBuf :
      (free : ℕ) (rbh : Rbufhdr) (num : ℕ) (s : RState W)
      → 0 < max_read_size
      → 0 < num
      → s.file_pos + num + mbufsize < 2 ^ 32
      → s.rbuf ≡ some rbh
      → held (some rbh) + s.mbufs.num_free_mbufs ≡ free
      → ReadsBuf contents size
          (contents s.world)
          (size s.world)
          free
          s.file_pos
          num
          (read_past rpc max_read_size num s)
  unfolding read_past release_buffered release_rbuf_data release_mbuf
  read_past-ReadsBuf free rbh num s m p fits e q =
      let reads = m_read-Reads rpc server max_read_size s.world s.file_pos num m (omega arith) in
      elim (Option-cases rbh.rbh_data) [
        | inl none_yet ↦
            rw (e, none_yet, read_past)
              (direct-ReadsBuf contents size (contents s.world) (size s.world) free num
                (record s { rbuf = some rbh }) _ p (held-none rbh none_yet) (rw none_yet tt)
                (omega (arith, held-none rbh none_yet)) reads)
        | inr (a, at) ↦
            rw (e, at, read_past)
              (direct-ReadsBuf contents size (contents s.world) (size s.world) free num
                (record s {
                  mbufs = release_mbuf s.mbufs (some a);
                  rbuf = some (record rbh { rbh_data = none });
                })
                _ p refl tt (omega (arith, held-some rbh a at)) reads)
      ]

  read_buf_counts :
      (free : ℕ) (rbh : Rbufhdr) (num : ℕ) (s : RState W)
      → 0 < max_read_size
      → 0 < num
      → s.file_pos + num + mbufsize < 2 ^ 32
      → s.rbuf ≡ some rbh
      → IsCoherent (contents s.world) s.mem (some rbh)
      → s.mbufs.num_free_mbufs ≡ length s.mbufs.free_mbufs
      → held (some rbh) + s.mbufs.num_free_mbufs ≡ free
      → ReadsBuf contents size
          (contents s.world)
          (size s.world)
          free
          s.file_pos
          num
          (read_buf rpc max_read_size num s)
  unfolding read_buf
  read_buf_counts free rbh num s m p fits e c counted q =
      elim (Bool-cases (leb num rbufferlimit && not (s.file_pos == 0))) [
        | inr past ↦ simp past (read_past-ReadsBuf free rbh num s m p fits e q)
        | inl through ↦ elim (Option-cases rbh.rbh_data) [
          | inr (a, at) ↦
              simp (through, e, at)
                (read_through-ReadsBuf free rbh (some a) num s m (ground arith) p fits at e c
                  counted (inl (λ x. cc)) q)
          | inl none_yet ↦ elim (Bool-cases (ltb 0 s.mbufs.num_free_mbufs)) [
            | inl has_free ↦
                simp (through, e, none_yet, has_free)
                  (read_through-ReadsBuf free rbh none num s m (ground arith) p fits none_yet e c
                    counted (inr (ground arith)) q)
            | inr full ↦
                simp (through, e, none_yet, full) (read_past-ReadsBuf free rbh num s m p fits e q)
          ]
        ]
      ]

  -- `rb_ReadBuf` of `num` bytes, on a file handle with a header for the buffer. If it succeeds, it
  -- gives bytes of the file from the position on: all that are wanted, or fewer if the end of the file
  -- is reached; and it moves the position behind them. If it fails, the position stays. In both cases
  -- the file is as it was, the buffer still holds bytes of the file at its place, and no MBuf is lost.
  -- It uses no pointer that is not valid. The premises: the buffer agrees with the file before, the
  -- pool counts its free MBufs, `num` and the largest read are not 0, and the position behind the
  -- bytes and a further buffer fits in 32 bits.
  pub read_buf-ReadsBuf :
      (rbh : Rbufhdr) (num : ℕ) (s : RState W)
      → 0 < max_read_size
      → 0 < num
      → s.file_pos + num + mbufsize < 2 ^ 32
      → s.rbuf ≡ some rbh
      → IsCoherent (contents s.world) s.mem (some rbh)
      → s.mbufs.num_free_mbufs ≡ length s.mbufs.free_mbufs
      → ReadsBuf contents size
          (contents s.world)
          (size s.world)
          (held (some rbh) + s.mbufs.num_free_mbufs)
          s.file_pos
          num
          (read_buf rpc max_read_size num s)
  read_buf-ReadsBuf rbh num s m p fits e c counted =
      read_buf_counts (held (some rbh) + s.mbufs.num_free_mbufs) rbh num s m p fits e c counted refl
