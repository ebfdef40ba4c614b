-- ===== src/Stream/Ring.antt =====
-- src/stream_buffer.c: measurement frames from the network, in a ring of slots of one frame each.
pub mod Queue
pub mod Steps
pub mod Arrivals
pub mod Rounds
pub mod Fifo
use libcap_utils.Prelude.{
  ℕ, zero, suc, ◌+◌, ◌-◌, ◌*◌, ◌%◌, ◌≡◌, Bool, true, false, not, Option, none, some, List, ◌∷◌,
  Memory, be32, ◌==◌, if◌then◌else◌, u32, u64,
}
use libcap_utils.Filter.{CapHeader}
use libcap_utils.Stream.{Status, ok, error, Matcher, packet_size_at, cap_header_at}
use libcap_utils.Stream.Read.{decide, eagain}
use libcap_utils.Stream.Sequence.{sendhead_size}

-- What a `read_frame_callback` does: whether it returns non-zero, and what it leaves in its slot.
pub record Arrival (World : Type 0) : Type 0 where
  pub arrived : Bool
  pub dst : Memory
  pub next : World

-- The callback of a stream, which is asked with the client's timeout or with none, and what
-- src/stream_buffer.h says of it: it reads the next frame. `coming` are the frames that it has yet to
-- deliver.
pub record FrameSource : Type 1 where
  pub World : Type 0
  pub receive : World → Memory → Bool → Arrival World
  pub coming : World → List Memory
  pub arrived-coming :
      (w : World) (slot : Memory) (waits : Bool)
      → (receive w slot waits).arrived ≡ true
      → coming w ≡ (receive w slot waits).dst ∷ coming (receive w slot waits).next
  pub missed-coming :
      (w : World) (slot : Memory) (waits : Bool)
      → (receive w slot waits).arrived ≡ false
      → coming (receive w slot waits).next ≡ coming w

-- A pointer into the buffer: the slot, and the offset in its frame.
pub record Place : Type 0 where
  pub slot : ℕ
  pub offset : ℕ

-- `struct stream_frame_buffer`, with the positions and counts of `struct stream` that it works on.
pub record FrameBuffer : Type 0 where
  pub frame : ℕ → Memory
  pub frame_size : ℕ
  pub num_frames : ℕ
  pub num_packets : ℕ
  pub header_offset : ℕ
  pub read_ptr : Option Place
  pub read_pos : ℕ
  pub write_pos : ℕ
  pub stat_read : ℕ
  pub stat_matched : ℕ
  pub stat_buffer_usage : ℕ

-- `sizeof(char*)` is 8.
abbrev pub stream_frame_buffer_size : ℕ → ℕ → ℕ
stream_frame_buffer_size num_frames mtu = u64 (num_frames * mtu + 8 * num_frames)

-- `stream_frame_init` on a stream whose positions and counts are 0, as `stream_alloc` leaves them.
-- Slot `i` points `8 * num_frames + i * frame_size` bytes behind the beginning of the buffer, so the
-- slots are apart, and each has its own memory here: a slot stores one frame
-- (src/stream_buffer.h), and a frame that runs over it into the next one is not modelled.
unfoldable pub stream_frame_init : (ℕ → Memory) → ℕ → ℕ → FrameBuffer
stream_frame_init memory num_frames frame_size = record {
  frame = memory;
  frame_size = frame_size;
  num_frames = num_frames;
  num_packets = 0;
  header_offset = 0;
  read_ptr = none;
  read_pos = 0;
  write_pos = 0;
  stat_read = 0;
  stat_matched = 0;
  stat_buffer_usage = 0;
}

-- The pointer at a frame's first packet, and `ntohl(sh->nopkts)`.
unfoldable pub open_frame : FrameBuffer → FrameBuffer
open_frame fb = record fb {
  read_ptr = some (record { slot = fb.read_pos; offset = fb.header_offset + sendhead_size });
  num_packets = be32 (fb.frame fb.read_pos) (fb.header_offset + 4);
}

-- A position moved on by one slot. It is an unsigned int, `num_frames` a size_t.
abbrev pub next_slot : ℕ → ℕ → ℕ
next_slot num_frames pos = u32 (pos + 1) % num_frames

abbrev pub store : (ℕ → Memory) → ℕ → Memory → ℕ → Memory
store frame slot m i = if i == slot then m else frame i

abbrev pub header_at : FrameBuffer → Place → CapHeader
header_at fb place = cap_header_at (fb.frame place.slot) place.offset

-- Past the packet at a place, and to the next frame if it was the last one of its frame.
unfoldable pub pass : FrameBuffer → Place → FrameBuffer
unfolding open_frame
pass fb place =
    let size = packet_size_at (fb.frame place.slot) place.offset in
    let fb' = record fb {
      num_packets = fb.num_packets - 1;
      read_ptr = some (record place { offset = place.offset + size });
      stat_read = u64 (fb.stat_read + 1);
      stat_buffer_usage = 0;
    } in
    let moved = record fb' { read_pos = next_slot fb.num_frames fb.read_pos } in
    if fb'.num_packets == 0
    then (if moved.read_pos == fb.write_pos
        then record moved { read_ptr = none }
        else open_frame moved)
    else fb'

-- What a call works on: `*header`, the buffer, the filter or none, and what is behind the callback.
pub record Work (source : FrameSource) (matcher : Matcher) : Type 0 where
  pub header : Option Place
  pub buffer : FrameBuffer
  pub filter : Option matcher.State
  pub world : source.World

-- What a round comes to: `goto retry`, a return, `abort`, or a filter that does not end.
pub data Outcome (source : FrameSource) (matcher : Matcher) : Type 0 where
  retry : Work source matcher → Outcome source matcher
  returned : Status → Work source matcher → Outcome source matcher
  aborted : Outcome source matcher
  hanging : Outcome source matcher

module _ (source : FrameSource) (matcher : Matcher) where
  -- Whether a frame was read, and the state behind it.
  unfoldable pub read_frame : Bool → Work source matcher → Bool × Work source matcher
  read_frame waits s =
      let fb = s.buffer in
      let got = source.receive s.world (fb.frame fb.write_pos) waits in
      let stored = record fb { frame = store fb.frame fb.write_pos got.dst } in
      if got.arrived
      then (
        true,
        record s {
          buffer = record stored { write_pos = next_slot fb.num_frames fb.write_pos };
          world = got.next;
        },
      )
      else (false, record s { buffer = stored; world = got.next })

  -- "empty buffer"; `false` is the return of EAGAIN.
  unfoldable pub ensure_frame : Bool → Work source matcher → Bool × Work source matcher
  unfolding read_frame open_frame
  ensure_frame waits s = elim s.buffer.read_ptr [
    | some place ↦ (true, s)
    | none ↦
        let (got, s') = read_frame waits s in
        if got then (true, record s' { buffer = open_frame s'.buffer }) else (false, s')
  ]

  -- "always read if there is space available"
  unfoldable pub top_up : Work source matcher → Work source matcher
  unfolding read_frame
  top_up s = if s.buffer.write_pos == s.buffer.read_pos then s else (read_frame false s).1

  -- What follows from the filter's answer on the packet at a place, which is passed.
  unfoldable pub judge :
      Work source matcher → Place → Option (Bool × Option matcher.State) → Outcome source matcher
  judge s place none = hanging
  judge s place (some (true, g)) =
      let fb = pass s.buffer place in
      returned ok (record s {
        header = some place;
        buffer = record fb { stat_matched = u64 (fb.stat_matched + 1) };
        filter = g;
      })
  judge s place (some (false, g)) =
      retry (record s { header = some place; buffer = pass s.buffer place; filter = g })

  -- The packet at a place is passed, and shown to the filter.
  unfoldable pub present : Work source matcher → Place → Outcome source matcher
  unfolding judge
  present s place = judge s place (decide matcher s.filter (header_at (pass s.buffer place) place))

  -- "no packets available", and else the next packet. The read pointer is set here, as
  -- `ensure_frame` has seen to it.
  unfoldable pub find_packet : Work source matcher → Outcome source matcher
  unfolding present
  find_packet s =
      if s.buffer.num_packets == 0
      then aborted
      else elim s.buffer.read_ptr [ none ↦ aborted | some place ↦ present s place ]

  unfoldable pub frame_round : Bool → Work source matcher → Outcome source matcher
  unfolding ensure_frame top_up find_packet
  frame_round waits s =
      let (have, s') = ensure_frame waits s in
      if have then find_packet (top_up s') else returned (error eagain) s'

  -- Out of fuel, the loop is left at a retry.
  unfoldable pub frame_loop : ℕ → Bool → Work source matcher → Outcome source matcher
  frame_loop zero waits s = retry s
  frame_loop (suc fuel) waits s = elim (frame_round waits s) [
    | retry s' ↦ frame_loop fuel waits s'
    | returned status s' ↦ returned status s'
    | aborted ↦ aborted
    | hanging ↦ hanging
  ]

  -- `waits` is whether the client's timeout is not zero.
  unfoldable pub stream_frame_buffer_read :
      ℕ → Bool → FrameBuffer → Option matcher.State → source.World → Outcome source matcher
  stream_frame_buffer_read fuel waits fb filter w =
      frame_loop fuel waits (record { header = none; buffer = fb; filter = filter; world = w })
