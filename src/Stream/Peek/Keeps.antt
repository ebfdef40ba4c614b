-- ===== src/Stream/Peek/Keeps.antt =====
-- That `stream_peek` of src/stream.c consumes nothing, and where it does not return.
use libcap_utils.Prelude.{
  ℕ, zero, suc, ◌+◌, ◌≡◌, refl, false, Option, none, some, ◌==◌, ltb, sub32, arith,
}
use libcap_utils.Filter.{CapHeader}
use libcap_utils.Stream.{
  Stream, Source, Matcher, cap_header_size, caplen_at, packet_size_at, cap_header_at,
}
use libcap_utils.Stream.Fill.{IsWellFormed}
use libcap_utils.Stream.Read.{Situation, again, decide}
use libcap_utils.Stream.Peek.{
  show_packet, peek_packet, peek_round, peek_loop, stream_peek, IsBuffered,
}

module _ (source : Source) (matcher : Matcher) where
  peek_round-again :
      (s : Situation source matcher) (g : Option matcher.State)
      → IsWellFormed s.stream
      → IsBuffered source matcher s.stream
      → decide matcher s.filter (cap_header_at s.stream.buffer s.stream.read_pos) ≡ some (false, g)
      → peek_round source matcher s
        ≡ again (record s { data_at = some s.stream.read_pos; filter = g })
  unfolding peek_round peek_packet show_packet IsBuffered
  peek_round-again s g wf (pos, fits) d =
      let long : ltb (sub32 s.stream.write_pos s.stream.read_pos) cap_header_size ≡ false =
        ground (arith, fits, wf.in_order, wf.within, wf.small) in
      let some_bytes : caplen_at s.stream.buffer s.stream.read_pos == 0 ≡ false =
        ground (arith, pos) in
      let whole : ltb s.stream.write_pos
            (s.stream.read_pos + packet_size_at s.stream.buffer s.stream.read_pos)
          ≡ false =
        ground (arith, fits) in
      rw (long, some_bytes, whole, show_packet, d) refl

  peek_loop_stuck :
      (fuel : ℕ) (s : Situation source matcher) (g : matcher.State)
      → ((head : CapHeader) (f : matcher.State)
          → (h : matcher.State) × (matcher.apply f head ≡ some (false, h)))
      → s.filter ≡ some g
      → IsWellFormed s.stream
      → IsBuffered source matcher s.stream
      → peek_loop source matcher fuel s ≡ none
  unfolding peek_loop decide IsBuffered
  peek_loop_stuck zero s g rejects e wf b = refl
  peek_loop_stuck (suc fuel) s g rejects e wf b =
      let head = cap_header_at s.stream.buffer s.stream.read_pos in
      let (h, d) = rejects head g in
      let asked : decide matcher s.filter head ≡ some (false, some h) = rw (e, decide, d) refl in
      let next =
        peek_loop_stuck fuel (record s { data_at = some s.stream.read_pos; filter = some h }) h
          rejects refl wf b in
      rw (peek_loop, peek_round-again s (some h) wf b asked) next

  -- With a filter that rejects every packet and a packet in the buffer, `stream_peek` never returns:
  -- the loop asks the filter about the same packet again and again.
  pub stream_peek_stuck :
      (fuel : ℕ) (st : Stream) (g : matcher.State) (w : source.World)
      → ((head : CapHeader) (f : matcher.State)
          → (h : matcher.State) × (matcher.apply f head ≡ some (false, h)))
      → IsWellFormed st
      → IsBuffered source matcher st
      → stream_peek source matcher fuel st (some g) w ≡ none
  unfolding stream_peek
  stream_peek_stuck fuel st g w rejects wf b =
      peek_loop_stuck fuel (record { data_at = none; stream = st; filter = some g; world = w }) g
        rejects refl wf b
