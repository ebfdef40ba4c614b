-- ===== src/Stream/Read.antt =====
-- `stream_read` of src/stream.c, for the streams that have no `read` of their own.
pub mod Spec
pub mod Refine
pub mod Ends
use libcap_utils.Prelude.{
  ℕ, zero, suc, ◌+◌, ◌≤◌, Bool, true, false, Option, none, some, Memory, ◌==◌, if◌then◌else◌, ltb,
  leb, ◌&&◌, ◌||◌, u32, u64, sub32,
}
use libcap_utils.Filter.{CapHeader}
use libcap_utils.Stream.{
  Stream, Status, ok, eof, error, Source, Matcher, cap_header_size, packet_size_at, cap_header_at,
}
use libcap_utils.Stream.Fill.{fill_buffer}

-- On Linux.
abbrev pub eagain : ℕ
eagain = 11

-- The client's pointer `*data` as an offset into the buffer, with what a call works on. `filter` is
-- `none` for a null pointer.
pub record Situation (source : Source) (matcher : Matcher) : Type 0 where
  pub data_at : Option ℕ
  pub stream : Stream
  pub filter : Option matcher.State
  pub world : source.World

-- What a round of the loop comes to: another round, a return, or a filter that does not end.
pub data Round (source : Source) (matcher : Matcher) : Type 0 where
  again : Situation source matcher → Round source matcher
  returns : Status → Situation source matcher → Round source matcher
  endless : Round source matcher

-- The stream behind the packet at the read position.
unfoldable pub advance : Stream → Stream
advance st =
    let read_pos' = u32 (st.read_pos + packet_size_at st.buffer st.read_pos) in
    record st {
      read_pos = read_pos';
      stat_read = u64 (st.stat_read + 1);
      stat_buffer_usage = sub32 st.write_pos read_pos';
    }

abbrev pub matched : Stream → Stream
matched st = record st { stat_matched = u64 (st.stat_matched + 1) }

module _ (matcher : Matcher) where
  -- `filterStatus`, "match by default, i.e. if no filter is used".
  unfoldable pub decide : Option matcher.State → CapHeader → Option (Bool × Option matcher.State)
  decide none head = some (true, none)
  decide (some f) head = elim (matcher.apply f head) [
    | none ↦ none
    | some (match, g) ↦ some (match, some g)
  ]

module _ (source : Source) (matcher : Matcher) where
  -- "set next packet and advance the read pointer", and the end of the loop.
  unfoldable pub take_packet : Situation source matcher → Round source matcher
  unfolding decide advance
  take_packet s =
      let st = s.stream in
      let st' = advance st in
      elim (decide matcher s.filter (cap_header_at st.buffer st.read_pos)) [
        | none ↦ endless
        | some (true, g) ↦ returns ok (record {
          data_at = some st.read_pos;
          stream = matched st';
          filter = g;
          world = s.world;
        })
        | some (false, g) ↦
            again (record { data_at = some st.read_pos; stream = st'; filter = g; world = s.world })
      ]

  abbrev pub resume : Situation source matcher → Stream × source.World → Situation source matcher
  resume s (st, w) = record s { stream = st; world = w }

  -- The switch on a first call of `fill_buffer`; `blocking` is a null `timeout`.
  unfoldable pub after_refill :
      Bool → Situation source matcher → Status × Stream × source.World → Round source matcher
  after_refill blocking s (ok, st, w) = again (resume s (st, w))
  after_refill blocking s (eof, st, w) = returns eof (resume s (st, w))
  after_refill blocking s (error e, st, w) =
      if e == eagain && (leb cap_header_size (sub32 st.write_pos st.read_pos) || blocking)
      then again (resume s (st, w))
      else returns (error e) (resume s (st, w))

  -- The call for the rest of a packet.
  unfoldable pub after_rest :
      Situation source matcher → Status × Stream × source.World → Round source matcher
  after_rest s (ok, st, w) = again (resume s (st, w))
  after_rest s (eof, st, w) = returns eof (resume s (st, w))
  after_rest s (error e, st, w) = returns (error e) (resume s (st, w))

  unfoldable pub packet_or_rest : Situation source matcher → Round source matcher
  unfolding take_packet after_rest
  packet_or_rest s =
      let st = s.stream in
      if ltb st.write_pos (st.read_pos + packet_size_at st.buffer st.read_pos)
      then after_rest s (fill_buffer source st s.world)
      else take_packet s

  -- The call that keeps the buffer full: a timeout and the end of the stream are no errors here.
  unfoldable pub after_top_up :
      Situation source matcher → Status × Stream × source.World → Round source matcher
  unfolding packet_or_rest
  after_top_up s (ok, st, w) = packet_or_rest (resume s (st, w))
  after_top_up s (eof, st, w) = packet_or_rest (resume s (st, w))
  after_top_up s (error e, st, w) =
      if e == eagain
      then packet_or_rest (resume s (st, w))
      else returns (error e) (resume s (st, w))

  -- The body of the loop.
  unfoldable pub round : Bool → Situation source matcher → Round source matcher
  unfolding after_refill after_top_up
  round blocking s =
      let st = s.stream in
      if ltb (sub32 st.write_pos st.read_pos) cap_header_size
      then after_refill blocking s (fill_buffer source st s.world)
      else after_top_up s (fill_buffer source st s.world)

  -- `none` means that the fuel ran out or that the filter did not end.
  unfoldable pub read_loop :
      ℕ → Bool → Situation source matcher → Option (Status × Situation source matcher)
  read_loop zero blocking s = none
  read_loop (suc fuel) blocking s = elim (round blocking s) [
    | again s' ↦ read_loop fuel blocking s'
    | returns status s' ↦ some (status, s')
    | endless ↦ none
  ]

  unfoldable pub stream_read :
      ℕ
      → Bool
      → Stream
      → Option matcher.State
      → source.World
      → Option (Status × Situation source matcher)
  stream_read fuel blocking st filter w =
      read_loop fuel blocking (record { data_at = none; stream = st; filter = filter; world = w })
