-- ===== src/Stream/Ring/Fifo.antt =====
-- `stream_frame_buffer_read` of src/stream_buffer.c against a queue of packets.
use libcap_utils.Prelude.{
  ◌+◌, ℕ, zero, suc, ◌<◌, ◌^◌, ◌≤◌, ◌≡◌, ◌≢◌, refl, sym, ap, Bool, true, false, Option, none, some,
  List, [], ◌∷◌, ◌++◌, length, All, be32, Memory, arith,
}
use mathlib.Core.Path.{subst}
use libcap_utils.Filter.{CapHeader}
use libcap_utils.Stream.{Status, ok, eof, error, Matcher}
use libcap_utils.Stream.Read.{decide, eagain}
use libcap_utils.Stream.Ring.{
  FrameBuffer, Place, FrameSource, Work, Outcome, retry, returned, aborted, hanging, header_at,
  frame_round, frame_loop, stream_frame_buffer_read, stream_frame_init, ensure_frame, read_frame,
  open_frame, top_up, find_packet,
}
use libcap_utils.Stream.Ring.Queue.{pending, HasPacket, IsRing}
use libcap_utils.Stream.Ring.Rounds.{left, IsSound, Rounded, frame_round-Rounded}
use libcap_utils.Stream.Read.Ends.{decide-ne-none}

-- A filter rejects these packets, in their order.
abbrev pub Rejects :
    (matcher : Matcher) → Option matcher.State → List CapHeader → Option matcher.State → Type 0
Rejects matcher f [] g = f ≡ g
Rejects matcher f (head ∷ heads) g =
    (next : Option matcher.State) × (decide matcher f head ≡ some (false, next))
    × Rejects matcher next heads g

module _ (source : FrameSource) (matcher : Matcher) where
  -- What a call has done that was begun with a filter and with packets to read. When it returns 0,
  -- its pointer is at the next packet that the filter accepts, and the packets behind it are left.
  -- Otherwise it returns EAGAIN with nothing buffered, and has passed packets that the filter rejects.
  abbrev pub Delivers :
      Option matcher.State → List CapHeader → Status → Work source matcher → Type 0
  Delivers f heads ok t =
      IsSound source matcher t
      × (skipped : List CapHeader) × (g : Option matcher.State) × (place : Place) × (t.header
          ≡ some place)
      × (heads ≡ skipped ++ header_at t.buffer place ∷ left source matcher t)
      × Rejects matcher f skipped g
      × (decide matcher g (header_at t.buffer place) ≡ some (true, t.filter))
  Delivers f heads eof t = ⊥
  Delivers f heads (error e) t =
      IsSound source matcher t
      × (e ≡ eagain)
      × (t.buffer.read_ptr ≡ none)
      × (skipped : List CapHeader) × (heads ≡ skipped ++ left source matcher t)
      × Rejects matcher f skipped t.filter

  Delivers_skip :
      (f g : Option matcher.State) (head : CapHeader) (heads : List CapHeader) (status : Status)
      (t : Work source matcher)
      → decide matcher f head ≡ some (false, g)
      → Delivers g heads status t
      → Delivers f (head ∷ heads) status t
  Delivers_skip f g head heads ok t d (sound, skipped, h, place, p, e, r, accepts) =
      (sound, head ∷ skipped, h, place, p, ap (λ hs. head ∷ hs) e, (g, d, r), accepts)
  Delivers_skip f g head heads eof t d h = h
  Delivers_skip f g head heads (error n) t d (sound, again, nothing, skipped, e, r) =
      (sound, again, nothing, head ∷ skipped, ap (λ hs. head ∷ hs) e, (g, d, r))

  follow :
      (fuel : ℕ) (waits : Bool) (s : Work source matcher) (outcome : Outcome source matcher)
      → frame_round source matcher waits s ≡ outcome
      → Rounded source matcher s outcome
      → ((head : CapHeader) (g : matcher.State) → matcher.apply g head ≢ none)
      → ((t : Work source matcher)
          → IsSound source matcher t
          → length (left source matcher t) < length (left source matcher s)
          → (status : Status) × (u : Work source matcher) × (frame_loop source matcher fuel waits t
              ≡ returned status u)
            × Delivers t.filter (left source matcher t) status u)
      → (status : Status) × (u : Work source matcher) × (frame_loop source matcher
            (suc fuel)
            waits
            s
          ≡ returned status u)
        × Delivers s.filter (left source matcher s) status u
  unfolding frame_loop
  follow fuel waits s (retry t) e (sound, head, l, d) total ih =
      let shorter : length (left source matcher t) < length (left source matcher s) =
        omega (arith, ap length l) in
      let (status, u, r, delivers) = ih t sound shorter in
      (
        status,
        u,
        rw (frame_loop, e) r,
        subst (λ hs. Delivers s.filter hs status u) (sym l)
            (Delivers_skip s.filter t.filter head (left source matcher t) status u d delivers),
      )
  follow fuel waits s (returned ok t) e (sound, place, p, l, d) total ih =
      (ok, t, rw (frame_loop, e) refl, (sound, [], s.filter, place, p, l, refl, d))
  follow fuel waits s (returned eof t) e h total ih = absurd h
  follow fuel waits s (returned (error n) t) e (sound, again, nothing, f, l) total ih =
      (error n, t, rw (frame_loop, e) refl, (sound, again, nothing, [], l, sym f))
  follow fuel waits s aborted e h total ih = absurd h
  follow fuel waits s hanging e (head, d) total ih =
      absurd (decide-ne-none matcher s.filter head (total head) d)

  frame_loop-Delivers :
      (fuel : ℕ) (waits : Bool) (s : Work source matcher)
      → ((head : CapHeader) (g : matcher.State) → matcher.apply g head ≢ none)
      → IsSound source matcher s
      → length (left source matcher s) < fuel
      → (status : Status) × (u : Work source matcher) × (frame_loop source matcher fuel waits s
          ≡ returned status u)
        × Delivers s.filter (left source matcher s) status u
  frame_loop-Delivers zero waits s total sound h = absurd (omega arith)
  frame_loop-Delivers (suc fuel) waits s total sound h =
      follow fuel waits s (frame_round source matcher waits s) refl
        (frame_round-Rounded source matcher waits s sound) total
        (λ t sound' less. frame_loop-Delivers fuel waits t total sound' (omega arith))

  -- A call of `stream_frame_buffer_read` on a ring in order, with a filter that always answers and
  -- where every frame to come holds a packet, returns within one round more than there are packets
  -- buffered and yet to come, and never aborts. When it returns 0, its pointer is at the next packet
  -- that the filter accepts, in the order of the frames and however they fill the slots, and the
  -- packets behind it are left for the next call. Otherwise it returns EAGAIN with nothing buffered,
  -- and has passed only packets that the filter rejects. The ring is in order again.
  pub stream_frame_buffer_read-Delivers :
      (fuel : ℕ) (waits : Bool) (fb : FrameBuffer) (filter : Option matcher.State)
      (w : source.World)
      → ((head : CapHeader) (g : matcher.State) → matcher.apply g head ≢ none)
      → IsRing fb
      → All (HasPacket fb.header_offset) (source.coming w)
      → length (pending fb (source.coming w)) < fuel
      → (status : Status) × (t : Work source matcher) × (stream_frame_buffer_read source matcher
            fuel waits fb filter w
          ≡ returned status t)
        × Delivers filter (pending fb (source.coming w)) status t
  unfolding stream_frame_buffer_read
  stream_frame_buffer_read-Delivers fuel waits fb filter w total ring frames h =
      frame_loop-Delivers fuel waits
        (record { header = none; buffer = fb; filter = filter; world = w }) total
        (record { ring = ring; frames = frames }) h

module _ (source : FrameSource) (matcher : Matcher) where
  -- With nothing buffered, a frame that arrives and says that it holds no packet makes
  -- `stream_frame_buffer_read` abort, whatever the filter is and arrives behind it.
  pub stream_frame_buffer_read_empty_frame :
      (fuel : ℕ) (waits : Bool) (fb : FrameBuffer) (filter : Option matcher.State)
      (w : source.World)
      → fb.read_ptr ≡ none
      → fb.read_pos ≡ fb.write_pos
      → let got = source.receive w (fb.frame fb.write_pos) waits in
        got.arrived ≡ true
        → be32 got.dst (fb.header_offset + 4) ≡ 0
        → stream_frame_buffer_read source matcher (suc fuel) waits fb filter w ≡ aborted
  unfolding stream_frame_buffer_read frame_loop frame_round ensure_frame read_frame open_frame
      top_up find_packet
  stream_frame_buffer_read_empty_frame fuel waits fb filter w e same arrived none_in =
      ground (arith, e, same, arrived, none_in)

-- A buffer of at least one and at most 2 ^ 32 slots is in order when it is initialised, with nothing
-- to read but what is yet to come.
pub stream_frame_init-IsRing :
    (memory : ℕ → Memory) (num_frames frame_size : ℕ)
    → 0 < num_frames
    → num_frames ≤ 2 ^ 32
    → IsRing (stream_frame_init memory num_frames frame_size)
unfolding stream_frame_init
stream_frame_init-IsRing memory num_frames frame_size some_slot small = record {
  small = small;
  read_in = some_slot;
  write_in = some_slot;
  reading = refl;
}
