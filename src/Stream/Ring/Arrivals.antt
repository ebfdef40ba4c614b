-- ===== src/Stream/Ring/Arrivals.antt =====
-- What a frame that arrives, or does not, changes in the ring of src/stream_buffer.c.
use libcap_utils.Prelude.{
  suc, ◌<◌, ◌≡◌, ◌≢◌, refl, ap, ◌∙◌, sym, Option, none, some, List, [], ◌∷◌, ◌++◌, append_assoc,
  All-append, Memory, arith,
}
use mathlib.Core.Path.{subst}
use libcap_utils.Stream.Ring.{FrameBuffer, Place, next_slot, store, open_frame}
use libcap_utils.Stream.Ring.Queue.{
  following, next_slot-following, gap, slots, slots-store, slots-store_next, headers, all_headers,
  all_headers-append, queued, current, pending, HasPacket, Reading, IsRing,
}
use libcap_utils.Stream.Ring.Steps.{open_frame-pending, pending-some}

-- What `read_frame` leaves if no frame has arrived, and if one has.
abbrev pub scribbled : FrameBuffer → Memory → FrameBuffer
scribbled fb m = record fb { frame = store fb.frame fb.write_pos m }

abbrev pub filled : FrameBuffer → Memory → FrameBuffer
filled fb m = record (scribbled fb m) { write_pos = next_slot fb.num_frames fb.write_pos }

pending-none :
    (fb : FrameBuffer) (coming : List Memory)
    → fb.read_ptr ≡ none
    → pending fb coming ≡ all_headers fb.header_offset coming
unfolding pending
pending-none fb coming e =
    ap
      (λ (p : Option Place).
        current fb p
        ++ (all_headers fb.header_offset (queued fb p) ++ all_headers fb.header_offset coming))
      e

-- A frame that has not arrived, and one that has and is opened, where nothing is buffered.
module _ (fb : FrameBuffer) (m : Memory) (coming : List Memory) (ring : IsRing fb)
    (e : fb.read_ptr ≡ none) where
  empty : fb.read_pos ≡ fb.write_pos
  empty = rw e at ring.reading

  pub scribbled_empty :
      IsRing (scribbled fb m) × (pending (scribbled fb m) coming ≡ pending fb coming)
  scribbled_empty = (
    record {
      small = ring.small;
      read_in = ring.read_in;
      write_in = ring.write_in;
      reading = subst (λ p. Reading (scribbled fb m) p) (sym e) empty;
    },
    pending-none (scribbled fb m) coming e ∙ sym (pending-none fb coming e),
  )

  pub opened :
      HasPacket fb.header_offset m
      → IsRing (open_frame (filled fb m))
        × (pending (open_frame (filled fb m)) coming ≡ pending fb (m ∷ coming))
  unfolding all_headers slots
  opened has =
      let n = fb.num_frames in
      let next = next_slot-following n fb.write_pos ring.write_in ring.small in
      let write_in' : next_slot n fb.write_pos < n = rw next (ground (arith, ring.write_in)) in
      let same : store fb.frame fb.write_pos m fb.read_pos ≡ m = ground (arith, empty) in
      let alone : gap n (following n fb.read_pos) (next_slot n fb.write_pos) ≡ 0 =
        rw (next, empty) (ground arith) in
      let none_behind : slots (filled fb m).frame n (following n fb.read_pos)
            (gap n (following n fb.read_pos) (next_slot n fb.write_pos))
          ≡ [] =
        rw alone refl in
      let start =
        open_frame-pending (filled fb m) coming ring.small ring.read_in write_in' (rw same has)
          (rw none_behind tt) in
      (start.0, start.1 ∙ rw (same, none_behind) (sym (pending-none fb (m ∷ coming) e)))

-- A write to the free slot at the write position, while a frame is being read.
module _ (fb : FrameBuffer) (place : Place) (m : Memory) (ring : IsRing fb)
    (e : fb.read_ptr ≡ some place) (room : fb.write_pos ≢ fb.read_pos) where
  reads : Reading fb (some place)
  unfolding queued
  reads = rw e at ring.reading

  same_frame : store fb.frame fb.write_pos m place.slot ≡ fb.frame place.slot
  same_frame = ground (arith, reads.0)

  queued-scribbled : queued (scribbled fb m) (some place) ≡ queued fb (some place)
  unfolding queued
  queued-scribbled =
      slots-store fb.frame fb.num_frames fb.write_pos
        (gap fb.num_frames (following fb.num_frames fb.read_pos) fb.write_pos)
        (following fb.num_frames fb.read_pos) m (ground (arith, ring.read_in)) ring.write_in
        (omega arith)

  queued-filled : queued (filled fb m) (some place) ≡ queued fb (some place) ++ m ∷ []
  unfolding queued
  queued-filled =
      let n = fb.num_frames in
      let start = following n fb.read_pos in
      let next = next_slot-following n fb.write_pos ring.write_in ring.small in
      let more : gap n start (following n fb.write_pos) ≡ suc (gap n start fb.write_pos) =
        ground (arith, ring.read_in, ring.write_in, room) in
      rw (next, more)
        (slots-store_next fb.frame n fb.write_pos (gap n start fb.write_pos) start m
          (ground (arith, ring.read_in)) ring.write_in refl)

  pub scribbled-pending :
      (coming : List Memory)
      → IsRing (scribbled fb m) × (pending (scribbled fb m) coming ≡ pending fb coming)
  scribbled-pending coming =
      let reading : Reading (scribbled fb m) (some place) =
        (reads.0, reads.1, rw queued-scribbled (reads.2)) in
      (
        record {
          small = ring.small;
          read_in = ring.read_in;
          write_in = ring.write_in;
          reading = subst (λ p. Reading (scribbled fb m) p) (sym e) reading;
        },
        pending-some (scribbled fb m) place coming e
            ∙ rw (same_frame, queued-scribbled) (sym (pending-some fb place coming e)),
      )

  moved_over :
      (coming : List Memory)
      → headers (fb.frame place.slot) place.offset fb.num_packets
          ++ (all_headers fb.header_offset (queued fb (some place) ++ m ∷ [])
              ++ all_headers fb.header_offset coming)
        ≡ pending fb (m ∷ coming)
  moved_over coming =
      let offset = fb.header_offset in
      let behind = queued fb (some place) in
      rw
        (
          all_headers-append offset behind (m ∷ []),
          append_assoc (all_headers offset behind) (all_headers offset (m ∷ []))
              (all_headers offset coming),
          ← (all_headers-append offset (m ∷ []) coming),
        )
        (sym (pending-some fb place (m ∷ coming) e))

  pub filled-pending :
      (coming : List Memory)
      → HasPacket fb.header_offset m
      → IsRing (filled fb m) × (pending (filled fb m) coming ≡ pending fb (m ∷ coming))
  filled-pending coming has =
      let next = next_slot-following fb.num_frames fb.write_pos ring.write_in ring.small in
      let each =
        All-append (HasPacket fb.header_offset) (queued fb (some place)) (m ∷ []) (reads.2)
          (has, tt) in
      let reading : Reading (filled fb m) (some place) =
        (reads.0, reads.1, rw queued-filled each) in
      (
        record {
          small = ring.small;
          read_in = ring.read_in;
          write_in = rw next (ground (arith, ring.write_in));
          reading = subst (λ p. Reading (filled fb m) p) (sym e) reading;
        },
        pending-some (filled fb m) place coming e
            ∙ rw (same_frame, queued-filled) (moved_over coming),
      )
