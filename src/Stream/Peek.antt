-- ===== src/Stream/Peek.antt =====
-- `stream_peek` of src/stream.c.
pub mod Keeps
use libcap_utils.Prelude.{
  ℕ, zero, suc, ◌+◌, ◌≤◌, ◌≡◌, ◌≢◌, refl, ◌∙◌, sym, Bool, true, false, Option, none, some, List,
  ◌==◌, if◌then◌else◌, if_cases, ltb, sub32, arith, ◌^◌,
}
use libcap_utils.Stream.{
  Stream, Status, ok, eof, error, Source, Matcher, cap_header_size, caplen_at, packet_size_at,
  cap_header_at,
}
use libcap_utils.Stream.Fill.{fill_buffer, IsWellFormed}
use libcap_utils.Stream.Fill.Lossless.{fill_buffer_lem, Filled, unread}
use libcap_utils.Stream.Read.{Situation, Round, again, returns, endless, resume, after_rest, decide}

-- ERROR_CAPFILE_INVALID
abbrev pub capfile_invalid : ℕ
capfile_invalid = 2 ^ 15 + 1

module _ (source : Source) (matcher : Matcher) where
  -- The end of the loop: the packet stays where it is, and a filter that rejects it is asked again.
  unfoldable pub show_packet : Situation source matcher → Round source matcher
  unfolding decide
  show_packet s = elim (decide matcher s.filter (cap_header_at s.stream.buffer s.stream.read_pos)) [
    | none ↦ endless
    | some (true, g) ↦ returns ok (record s { data_at = some s.stream.read_pos; filter = g })
    | some (false, g) ↦ again (record s { data_at = some s.stream.read_pos; filter = g })
  ]

  unfoldable pub peek_packet : Situation source matcher → Round source matcher
  unfolding show_packet after_rest
  peek_packet s =
      let st = s.stream in
      let at = st.read_pos in
      if caplen_at st.buffer at == 0
      then returns (error capfile_invalid) s
      else if ltb st.write_pos (at + packet_size_at st.buffer at)
      then after_rest source matcher s (fill_buffer source st s.world)
      else show_packet s

  unfoldable pub peek_round : Situation source matcher → Round source matcher
  unfolding peek_packet after_rest
  peek_round s =
      let st = s.stream in
      if ltb (sub32 st.write_pos st.read_pos) cap_header_size
      then after_rest source matcher s (fill_buffer source st s.world)
      else peek_packet s

  -- `none` means that the fuel ran out or that the filter did not end.
  unfoldable pub peek_loop :
      ℕ → Situation source matcher → Option (Status × Situation source matcher)
  unfolding peek_round
  peek_loop zero s = none
  peek_loop (suc fuel) s = elim (peek_round s) [
    | again s' ↦ peek_loop fuel s'
    | returns status s' ↦ some (status, s')
    | endless ↦ none
  ]

  unfoldable pub stream_peek :
      ℕ → Stream → Option matcher.State → source.World → Option (Status × Situation source matcher)
  unfolding peek_loop
  stream_peek fuel st filter w =
      peek_loop fuel (record { data_at = none; stream = st; filter = filter; world = w })

  -- A packet that is buffered as a whole.
  unfoldable pub IsBuffered : Stream → Type 0
  IsBuffered st =
      (1 ≤ caplen_at st.buffer st.read_pos)
      × (st.read_pos + packet_size_at st.buffer st.read_pos ≤ st.write_pos)

  -- What a call may come to: nothing is consumed, and a return of 0 shows the packet at the read
  -- position, which is there as a whole.
  unfoldable pub Peeks : List ℕ → Status × Situation source matcher → Type 0
  Peeks bytes (ok, s) =
      IsWellFormed s.stream
      × (unread source s.stream s.world ≡ bytes)
      × (s.data_at ≡ some s.stream.read_pos)
      × IsBuffered s.stream
  Peeks bytes (_, s) = IsWellFormed s.stream × (unread source s.stream s.world ≡ bytes)

  unfoldable pub PeekSafe : List ℕ → Round source matcher → Type 0
  PeekSafe bytes (again s) = IsWellFormed s.stream × (unread source s.stream s.world ≡ bytes)
  PeekSafe bytes (returns status s) = Peeks bytes (status, s)
  PeekSafe bytes endless = Unit {0}
