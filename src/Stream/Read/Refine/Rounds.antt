-- ===== src/Stream/Read/Refine/Rounds.antt =====
-- That the loop of `stream_read` of src/stream.c keeps its promise, round by round.
use libcap_utils.Prelude.{
  ℕ, ◌+◌, ◌≤◌, ◌<◌, ◌≡◌, ◌≢◌, refl, sym, ap, Bool, true, false, Option, none, some, List, length,
  ◌==◌, if_cases, ltb, leb, ◌&&◌, ◌||◌, sub32, arith, inl, inr,
}
use libcap_utils.Stream.{
  Stream, Status, ok, eof, error, Source, Matcher, cap_header_size, packet_size_at, cap_header_at,
}
use libcap_utils.Stream.Fill.{fill_buffer, IsWellFormed, pending, length-pending}
use libcap_utils.Stream.Fill.Lossless.{fill_buffer_lem, unread, Filled, Progress}
use libcap_utils.Stream.Read.{
  Situation, Round, again, returns, endless, eagain, decide, advance, take_packet, resume,
  after_refill, after_rest, packet_or_rest, after_top_up, round,
}
use libcap_utils.Stream.Read.Refine.{
  left, work, IsSafe, advance-IsWellFormed, advance-unread, matched-IsWellFormed, shorter,
}

module _ (source : Source) (matcher : Matcher) where
  take_packet-IsSafe :
      (blocking : Bool) (s : Situation source matcher)
      (decision : Option (Bool × Option matcher.State))
      → IsWellFormed s.stream
      → s.stream.read_pos + packet_size_at s.stream.buffer s.stream.read_pos ≤ s.stream.write_pos
      → decide matcher s.filter (cap_header_at s.stream.buffer s.stream.read_pos) ≡ decision
      → IsSafe source matcher blocking s.filter
          (left source matcher s)
          (work source matcher s)
          (take_packet source matcher s)
  unfolding take_packet IsSafe advance unread pending
  take_packet-IsSafe blocking s none w h d =
      rw (take_packet, d) (s.filter, cap_header_at s.stream.buffer s.stream.read_pos, d)
  take_packet-IsSafe blocking s (some (true, g)) w h d =
      let split = advance-unread source s.stream s.world w h in
      rw (take_packet, d)
        (
          matched-IsWellFormed (advance s.stream) (advance-IsWellFormed s.stream w h),
          (s.stream.read_pos, refl, split, d),
        )
  take_packet-IsSafe blocking s (some (false, g)) w h d =
      let split = advance-unread source s.stream s.world w h in
      let less =
        shorter s.stream.buffer s.stream.read_pos (unread source (advance s.stream) s.world)
          split in
      rw (take_packet, d)
        (
          advance-IsWellFormed s.stream w h,
          (λ _. omega (arith, less)),
          inr (s.stream.buffer, s.stream.read_pos, split, d),
        )

  IsSafe-mono :
      (blocking : Bool) (f : Option matcher.State) (bytes : List ℕ) {n k : ℕ}
      (r : Round source matcher)
      → n ≤ k
      → IsSafe source matcher blocking f bytes n r
      → IsSafe source matcher blocking f bytes k r
  unfolding IsSafe
  IsSafe-mono blocking f bytes (again s) b (wf, less, step) =
      (wf, (λ e. omega (arith, b, less e)), step)
  IsSafe-mono blocking f bytes (returns ok s) b h = h
  IsSafe-mono blocking f bytes (returns eof s) b h = h
  IsSafe-mono blocking f bytes (returns (error e) s) b h = h
  IsSafe-mono blocking f bytes endless b h = h

  IsSafe-same :
      (blocking : Bool) (f : Option matcher.State) (n : ℕ) (r : Round source matcher)
      {bytes bytes' : List ℕ}
      → bytes ≡ bytes'
      → IsSafe source matcher blocking f bytes n r
      → IsSafe source matcher blocking f bytes' n r
  IsSafe-same blocking f n r e h = rw (sym e) h

  -- After a call of `fill_buffer` a round is judged as if it began there.
  after_fill :
      (blocking : Bool) (s : Situation source matcher) {status : Status} (st : Stream)
      (w : source.World) (r : Round source matcher)
      → Filled source s.stream s.world status st w
      → (let s' = resume source matcher s (st, w) in
          IsSafe source matcher blocking s.filter
            (left source matcher s')
            (work source matcher s')
            r)
      → IsSafe source matcher blocking s.filter (left source matcher s) (work source matcher s) r
  after_fill blocking s st w r fd h =
      let s' = resume source matcher s (st, w) in
      let bound : work source matcher s' ≤ work source matcher s =
        omega (arith, ap length fd.same_unread, fd.fewer) in
      IsSafe-same blocking s.filter (work source matcher s) r fd.same_unread
        (IsSafe-mono blocking s.filter (left source matcher s') r bound h)

  -- A return right after `fill_buffer`, which selects nothing.
  stop-IsSafe :
      (blocking : Bool) (s : Situation source matcher) {status : Status} (st : Stream)
      (w : source.World) (code : Status)
      → code ≢ ok
      → Filled source s.stream s.world status st w
      → IsSafe source matcher blocking s.filter
          (left source matcher s)
          (work source matcher s)
          (returns code (resume source matcher s (st, w)))
  unfolding IsSafe
  stop-IsSafe blocking s st w ok n fd = absurd (n refl)
  stop-IsSafe blocking s st w eof n fd = (fd.well_formed, refl, fd.same_unread)
  stop-IsSafe blocking s st w (error e) n fd = (fd.well_formed, refl, fd.same_unread)

  -- Another round right after `fill_buffer`, which has brought bytes unless the call is blocking.
  again-IsSafe :
      (blocking : Bool) (s : Situation source matcher) {status : Status} (st : Stream)
      (w : source.World)
      → Filled source s.stream s.world status st w
      → (blocking ≡ false → length (source.rest w) < length (source.rest s.world))
      → IsSafe source matcher blocking s.filter
          (left source matcher s)
          (work source matcher s)
          (again (resume source matcher s (st, w)))
  unfolding IsSafe
  again-IsSafe blocking s st w fd more = (
    fd.well_formed,
    (λ b. omega (arith, ap length fd.same_unread, more b)),
    inl (refl, fd.same_unread),
  )

  after_rest-IsSafe :
      (blocking : Bool) (s : Situation source matcher)
      → IsWellFormed s.stream
      → ltb s.stream.write_pos
          (s.stream.read_pos + packet_size_at s.stream.buffer s.stream.read_pos)
        ≡ true
      → (r : Status × Stream × source.World) → Filled source s.stream s.world r.0 r.1 r.2
      → IsSafe source matcher blocking s.filter
          (left source matcher s)
          (work source matcher s)
          (after_rest source matcher s r)
  unfolding after_rest Progress
  after_rest-IsSafe blocking s wf h (ok, st, w) fd = again-IsSafe blocking s st w fd (λ _.
      elim fd.progress [
        | inl full ↦ absurd (ground (arith, wf.in_order, wf.within, wf.small, h, full))
        | inr more ↦ more
      ])
  after_rest-IsSafe blocking s wf h (eof, st, w) fd =
      stop-IsSafe blocking s st w eof (λ e. absurd (ground arith)) fd
  after_rest-IsSafe blocking s wf h (error e, st, w) fd =
      stop-IsSafe blocking s st w (error e) (λ e. absurd (ground arith)) fd

  -- The call for the rest of a packet, and the packet.
  packet_or_rest-IsSafe :
      (blocking : Bool) (s : Situation source matcher)
      → IsWellFormed s.stream
      → IsSafe source matcher blocking s.filter
          (left source matcher s)
          (work source matcher s)
          (packet_or_rest source matcher s)
  unfolding packet_or_rest
  packet_or_rest-IsSafe blocking s wf =
      let size = packet_size_at s.stream.buffer s.stream.read_pos in
      let P =
        IsSafe source matcher blocking s.filter (left source matcher s) (work source matcher s) in
      if_cases P (ltb s.stream.write_pos (s.stream.read_pos + size))
        (λ h.
          after_rest-IsSafe blocking s wf h (fill_buffer source s.stream s.world)
            (fill_buffer_lem source s.stream s.world wf))
        (λ h.
          take_packet-IsSafe blocking s
            (decide matcher s.filter (cap_header_at s.stream.buffer s.stream.read_pos)) wf
            (ground (arith, h)) refl)

  after_top_up-IsSafe :
      (blocking : Bool) (s : Situation source matcher) (r : Status × Stream × source.World)
      → Filled source s.stream s.world r.0 r.1 r.2
      → IsSafe source matcher blocking s.filter
          (left source matcher s)
          (work source matcher s)
          (after_top_up source matcher s r)
  unfolding after_top_up
  after_top_up-IsSafe blocking s (ok, st, w) fd =
      let s' = resume source matcher s (st, w) in
      after_fill blocking s st w (packet_or_rest source matcher s') fd
        (packet_or_rest-IsSafe blocking s' fd.well_formed)
  after_top_up-IsSafe blocking s (eof, st, w) fd =
      let s' = resume source matcher s (st, w) in
      after_fill blocking s st w (packet_or_rest source matcher s') fd
        (packet_or_rest-IsSafe blocking s' fd.well_formed)
  after_top_up-IsSafe blocking s (error e, st, w) fd =
      let s' = resume source matcher s (st, w) in
      let P =
        IsSafe source matcher blocking s.filter (left source matcher s) (work source matcher s) in
      if_cases P (e == eagain)
        (λ _.
          after_fill blocking s st w (packet_or_rest source matcher s') fd
            (packet_or_rest-IsSafe blocking s' fd.well_formed))
        (λ _. stop-IsSafe blocking s st w (error e) (λ e. absurd (ground arith)) fd)

  after_refill-IsSafe :
      (blocking : Bool) (s : Situation source matcher)
      → IsWellFormed s.stream
      → ltb (sub32 s.stream.write_pos s.stream.read_pos) cap_header_size ≡ true
      → (r : Status × Stream × source.World) → Filled source s.stream s.world r.0 r.1 r.2
      → IsSafe source matcher blocking s.filter
          (left source matcher s)
          (work source matcher s)
          (after_refill source matcher blocking s r)
  unfolding after_refill Progress
  after_refill-IsSafe blocking s wf h (ok, st, w) fd = again-IsSafe blocking s st w fd (λ _.
      elim fd.progress [
        | inl full ↦ absurd (ground (arith, wf.in_order, wf.within, wf.small, h, full))
        | inr more ↦ more
      ])
  after_refill-IsSafe blocking s wf h (eof, st, w) fd =
      stop-IsSafe blocking s st w eof (λ e. absurd (ground arith)) fd
  after_refill-IsSafe blocking s wf h (error e, st, w) fd =
      let P =
        IsSafe source matcher blocking s.filter (left source matcher s) (work source matcher s) in
      let w' = fd.well_formed in
      let same = ap length fd.progress in
      if_cases P (e == eagain && (leb cap_header_size (sub32 st.write_pos st.read_pos) || blocking))
        (λ t. again-IsSafe blocking s st w fd (λ b. absurd (
          ground (
            arith,
            b,
            t,
            h,
            same,
            length-pending st,
            length-pending s.stream,
            w'.in_order,
            w'.within,
            w'.small,
            wf.in_order,
            wf.within,
            wf.small,
          ))))
        (λ _. stop-IsSafe blocking s st w (error e) (λ e. absurd (ground arith)) fd)

  -- A round on a well-formed stream.
  pub round-IsSafe :
      (blocking : Bool) (s : Situation source matcher)
      → IsWellFormed s.stream
      → IsSafe source matcher blocking s.filter
          (left source matcher s)
          (work source matcher s)
          (round source matcher blocking s)
  unfolding round
  round-IsSafe blocking s wf =
      let P =
        IsSafe source matcher blocking s.filter (left source matcher s) (work source matcher s) in
      let filled = fill_buffer_lem source s.stream s.world wf in
      if_cases P (ltb (sub32 s.stream.write_pos s.stream.read_pos) cap_header_size)
        (λ h. after_refill-IsSafe blocking s wf h (fill_buffer source s.stream s.world) filled)
        (λ h. after_top_up-IsSafe blocking s (fill_buffer source s.stream s.world) filled)
