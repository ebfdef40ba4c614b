-- ===== src/Stream/Ring/Steps.antt =====
-- Each step of src/stream_buffer.c keeps the ring in order, and loses and repeats no packet.
use libcap_utils.Prelude.{
  none, ℕ, ◌+◌, ◌-◌, ◌^◌, ◌≤◌, ◌<◌, ◌≡◌, refl, ap, ◌∙◌, sym, false, Bool-cases, inl, inr, Option,
  some, List, [], ◌∷◌, ◌++◌, append_assoc, All, Memory, ◌==◌, arith, u64,
}
use libcap_utils.Filter.{CapHeader}
use libcap_utils.Stream.{packet_size_at}
use libcap_utils.Stream.Ring.{FrameBuffer, Place, next_slot, open_frame, pass, header_at}
use libcap_utils.Stream.Ring.Queue.{
  following, next_slot-following, gap, slots, slots-gap, headers-pos, headers, frame_headers,
  all_headers, queued, current, pending, HasPacket, Reading, IsRing,
}

-- Opening a frame that stands in the slot at the read position, and behind which `k` more are
-- buffered.
pub open_frame-pending :
    (fb : FrameBuffer) (coming : List Memory)
    → fb.num_frames ≤ 2 ^ 32
    → fb.read_pos < fb.num_frames
    → fb.write_pos < fb.num_frames
    → HasPacket fb.header_offset (fb.frame fb.read_pos)
    → All (HasPacket fb.header_offset) (
        slots fb.frame fb.num_frames
          (following fb.num_frames fb.read_pos)
          (gap fb.num_frames (following fb.num_frames fb.read_pos) fb.write_pos))
    → IsRing (open_frame fb)
      × (pending (open_frame fb) coming
          ≡ frame_headers fb.header_offset (fb.frame fb.read_pos)
            ++ (all_headers fb.header_offset (
                  slots fb.frame fb.num_frames
                    (following fb.num_frames fb.read_pos)
                    (gap fb.num_frames (following fb.num_frames fb.read_pos) fb.write_pos))
                ++ all_headers fb.header_offset coming))
unfolding open_frame pending queued current frame_headers
open_frame-pending fb coming small r w has all =
    (record { small = small; read_in = r; write_in = w; reading = (refl, has, all) }, refl)

pub pending-some :
    (fb : FrameBuffer) (place : Place) (coming : List Memory)
    → fb.read_ptr ≡ some place
    → pending fb coming
      ≡ headers (fb.frame place.slot) place.offset fb.num_packets
        ++ (all_headers fb.header_offset (queued fb (some place))
            ++ all_headers fb.header_offset coming)
unfolding pending current
pending-some fb place coming e =
    ap
      (λ (p : Option Place).
        current fb p
        ++ (all_headers fb.header_offset (queued fb p) ++ all_headers fb.header_offset coming))
      e

-- The state past the last packet of a frame.
abbrev moved : FrameBuffer → Place → FrameBuffer
moved fb place = record fb {
  num_packets = fb.num_packets - 1;
  read_ptr =
      some (record place {
        offset = place.offset + packet_size_at (fb.frame place.slot) place.offset;
      });
  read_pos = next_slot fb.num_frames fb.read_pos;
  stat_read = u64 (fb.stat_read + 1);
  stat_buffer_usage = 0;
}

next_in : (fb : FrameBuffer) → IsRing fb → next_slot fb.num_frames fb.read_pos < fb.num_frames
next_in fb ring =
    rw (next_slot-following fb.num_frames fb.read_pos ring.read_in ring.small) (ground arith)

queued-none :
    (fb : FrameBuffer) (place : Place)
    → following fb.num_frames fb.read_pos ≡ fb.write_pos
    → queued fb (some place) ≡ []
unfolding queued
queued-none fb place e =
    let none_between : gap fb.num_frames (following fb.num_frames fb.read_pos) fb.write_pos ≡ 0 =
      ground (arith, e) in
    rw none_between refl

queued-some :
    (fb : FrameBuffer) (place : Place)
    → IsRing fb
    → (next_slot fb.num_frames fb.read_pos == fb.write_pos) ≡ false
    → let n = fb.num_frames in
      let pos = next_slot n fb.read_pos in
      queued fb (some place)
      ≡ fb.frame pos ∷ slots fb.frame n (following n pos) (gap n (following n pos) fb.write_pos)
unfolding queued
queued-some fb place ring more =
    let next = next_slot-following fb.num_frames fb.read_pos ring.read_in ring.small in
    rw (← next) (
      slots-gap fb.frame fb.num_frames fb.write_pos (next_slot fb.num_frames fb.read_pos)
        (next_in fb ring) ring.write_in (ground (arith, more)))

-- `pass` is past the packet that it is given, and past no other.
pub pass-pending :
    (fb : FrameBuffer) (place : Place) (coming : List Memory)
    → IsRing fb
    → fb.read_ptr ≡ some place
    → IsRing (pass fb place)
      × ((pass fb place).header_offset ≡ fb.header_offset)
      × (pending fb coming ≡ header_at fb place ∷ pending (pass fb place) coming)
      × (header_at (pass fb place) place ≡ header_at fb place)
unfolding pass pending queued current headers
pass-pending fb place coming ring e =
    let reading : Reading fb (some place) = rw e at ring.reading in
    let next = next_slot-following fb.num_frames fb.read_pos ring.read_in ring.small in
    let rest = λ (k : List CapHeader).
      k
      ++ (all_headers fb.header_offset (queued fb (some place))
          ++ all_headers fb.header_offset coming) in
    let begins =
      pending-some fb place coming e
      ∙ ap rest (headers-pos (fb.frame place.slot) place.offset fb.num_packets reading.1) in
    elim (Bool-cases (fb.num_packets - 1 == 0)) [
      | inl last ↦ elim (Bool-cases (next_slot fb.num_frames fb.read_pos == fb.write_pos)) [
        | inl empty ↦
            let none_left : queued fb (some place) ≡ [] =
              queued-none fb place (ground (arith, next, empty)) in
            let no_more : fb.num_packets - 1 ≡ 0 = ground (arith, last) in
            rw (last, empty)
              ((
                record {
                  small = ring.small;
                  read_in = next_in fb ring;
                  write_in = ring.write_in;
                  reading = ground (arith, empty);
                },
                refl,
                begins ∙ rw (no_more, none_left) refl,
                refl,
              ))
        | inr more ↦
            let pos = next_slot fb.num_frames fb.read_pos in
            let behind_it = all_headers fb.header_offset (
              slots fb.frame fb.num_frames (following fb.num_frames pos)
                (gap fb.num_frames (following fb.num_frames pos) fb.write_pos)) in
            let front = queued-some fb place ring more in
            let behind = rw front at (reading.2) in
            let no_more : fb.num_packets - 1 ≡ 0 = ground (arith, last) in
            let opened =
              open_frame-pending (moved fb place) coming ring.small (next_in fb ring) ring.write_in
                behind.0 behind.1 in
            rw (last, more)
              ((
                opened.0,
                refl,
                begins
                    ∙ rw (no_more, front)
                        (ap (λ (k : List CapHeader). header_at fb place ∷ k)
                          (append_assoc (frame_headers fb.header_offset (fb.frame pos)) behind_it
                              (all_headers fb.header_offset coming)
                            ∙ sym (opened.1))),
                refl,
              ))
      ]
      | inr more ↦ rw more (
          (
            record {
              small = ring.small;
              read_in = ring.read_in;
              write_in = ring.write_in;
              reading = (reading.0, ground (arith, more), reading.2);
            },
            refl,
            begins,
            refl,
          ))
    ]

-- Counting a packet changes nothing else.
abbrev counted : FrameBuffer → ℕ → FrameBuffer
counted fb n = record fb { stat_matched = n }

Reading-counted :
    (fb : FrameBuffer) (n : ℕ) (p : Option Place) → Reading fb p → Reading (counted fb n) p
unfolding queued
Reading-counted fb n none h = h
Reading-counted fb n (some place) h = h

shown-counted :
    (fb : FrameBuffer) (n : ℕ) (p : Option Place) (coming : List Memory)
    → current (counted fb n) p
        ++ (all_headers fb.header_offset (queued (counted fb n) p)
            ++ all_headers fb.header_offset coming)
      ≡ current fb p
        ++ (all_headers fb.header_offset (queued fb p) ++ all_headers fb.header_offset coming)
unfolding queued current
shown-counted fb n none coming = refl
shown-counted fb n (some place) coming = refl

pub counted-pending :
    (fb : FrameBuffer) (n : ℕ) (coming : List Memory)
    → IsRing fb
    → let fb' = record fb { stat_matched = n } in
      IsRing fb' × (pending fb' coming ≡ pending fb coming)
unfolding pending
counted-pending fb n coming ring = (
  record {
    small = ring.small;
    read_in = ring.read_in;
    write_in = ring.write_in;
    reading = Reading-counted fb n fb.read_ptr ring.reading;
  },
  shown-counted fb n fb.read_ptr coming,
)
