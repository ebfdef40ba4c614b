-- ===== src/Stream/Ring/Rounds.antt =====
-- The rounds of `stream_frame_buffer_read` in src/stream_buffer.c: each shows the filter the packet that
-- is next, whatever has arrived.
use libcap_utils.Prelude.{
  ◌+◌, ◌≡◌, ◌≢◌, refl, ap, ap₂, ◌∙◌, sym, Bool, true, false, Bool-cases, Option-cases, inl, inr,
  Option, none, some, List, ◌∷◌, All, Memory, ◌==◌, if◌then◌else◌, arith, u64,
}
use mathlib.Core.Path.{subst}
use libcap_utils.Filter.{CapHeader}
use libcap_utils.Stream.{ok, eof, error, Matcher}
use libcap_utils.Stream.Read.{decide, eagain}
use libcap_utils.Stream.Sequence.{sendhead_size}
use libcap_utils.Stream.Ring.{
  Outcome, retry, returned, aborted, hanging, judge, present, find_packet, frame_round,
}
use libcap_utils.Stream.Ring.{
  Place, open_frame, pass, header_at, FrameSource, Work, read_frame, ensure_frame, top_up,
}
use libcap_utils.Stream.Ring.Queue.{pending, HasPacket, Reading, IsRing}
use libcap_utils.Stream.Ring.Steps.{pass-pending, counted-pending}
use libcap_utils.Stream.Ring.Arrivals.{
  scribbled, filled, scribbled_empty, opened, scribbled-pending, filled-pending,
}

true-ne-false : true ≢ false
true-ne-false h = cc h

module _ (source : FrameSource) (matcher : Matcher) where
  -- The packets that are left, buffered and yet to come.
  abbrev pub left : Work source matcher → List CapHeader
  left s = pending s.buffer (source.coming s.world)

  -- The ring is in order, and each frame that is yet to come holds a packet.
  pub record IsSound (s : Work source matcher) : Type 0 where
    pub ring : IsRing s.buffer
    pub frames : All (HasPacket s.buffer.header_offset) (source.coming s.world)

  -- Reading ahead loses no packet, and leaves the read pointer.
  pub top_up-left :
      (s : Work source matcher) (place : Place)
      → IsSound s
      → s.buffer.read_ptr ≡ some place
      → IsSound (top_up source matcher s)
        × ((top_up source matcher s).buffer.read_ptr ≡ some place)
        × ((top_up source matcher s).filter ≡ s.filter)
        × (left (top_up source matcher s) ≡ left s)
  unfolding top_up read_frame
  top_up-left s place sound e =
      let slot = s.buffer.frame s.buffer.write_pos in
      let got = source.receive s.world slot false in
      elim (Bool-cases (s.buffer.write_pos == s.buffer.read_pos)) [
        | inl full ↦ rw full (sound, e, refl, refl)
        | inr room ↦
            let apart : s.buffer.write_pos ≢ s.buffer.read_pos = ground (arith, room) in
            elim (Bool-cases got.arrived) [
              | inl more ↦
                  let first = rw (source.arrived-coming s.world slot false more) at sound.frames in
                  let (ring', same) =
                    filled-pending s.buffer place got.dst sound.ring e apart
                      (source.coming got.next) first.0 in
                  rw (room, more)
                    (
                      record { ring = ring'; frames = first.1 },
                      e,
                      refl,
                      same ∙ rw (source.arrived-coming s.world slot false more) refl,
                    )
              | inr none_yet ↦
                  let (ring', same) =
                    scribbled-pending s.buffer place got.dst sound.ring e apart
                      (source.coming got.next) in
                  let still = source.missed-coming s.world slot false none_yet in
                  rw (room, none_yet)
                    (
                      record { ring = ring'; frames = rw still (sound.frames) },
                      e,
                      refl,
                      same ∙ rw still refl,
                    )
            ]
      ]

  -- With a frame there is a packet to read, and without one nothing is lost.
  abbrev pub Ensured : Work source matcher → Bool × Work source matcher → Type 0
  Ensured s (have, t) =
      IsSound t
      × (t.filter ≡ s.filter)
      × (left t ≡ left s)
      × (have ≡ true → (place : Place) × (t.buffer.read_ptr ≡ some place))
      × (have ≡ false → t.buffer.read_ptr ≡ none)

  abbrev slot_of : Work source matcher → Memory
  slot_of s = s.buffer.frame s.buffer.write_pos

  ensure_frame_open :
      (waits : Bool) (s : Work source matcher) (place : Place)
      → s.buffer.read_ptr ≡ some place
      → ensure_frame source matcher waits s ≡ (true, s)
  unfolding ensure_frame
  ensure_frame_open waits s place e = ground (arith, e)

  ensure_frame_arrived :
      (waits : Bool) (s : Work source matcher)
      → s.buffer.read_ptr ≡ none
      → let got = source.receive s.world (slot_of s) waits in
        got.arrived ≡ true
        → ensure_frame source matcher waits s
          ≡ (true, record s { buffer = open_frame (filled s.buffer got.dst); world = got.next })
  unfolding ensure_frame read_frame open_frame
  ensure_frame_arrived waits s e more = ground (arith, e, more)

  ensure_frame_missed :
      (waits : Bool) (s : Work source matcher)
      → s.buffer.read_ptr ≡ none
      → let got = source.receive s.world (slot_of s) waits in
        got.arrived ≡ false
        → ensure_frame source matcher waits s
          ≡ (false, record s { buffer = scribbled s.buffer got.dst; world = got.next })
  unfolding ensure_frame read_frame
  ensure_frame_missed waits s e none_yet = ground (arith, e, none_yet)

  pub ensure_frame-Ensured :
      (waits : Bool) (s : Work source matcher)
      → IsSound s
      → Ensured s (ensure_frame source matcher waits s)
  unfolding open_frame
  ensure_frame-Ensured waits s sound =
      let fb = s.buffer in
      let slot = slot_of s in
      let got = source.receive s.world slot waits in
      elim (Option-cases fb.read_ptr) [
        | inr (place, e) ↦
            rw (ensure_frame_open waits s place e)
              (sound, refl, refl, λ _. (place, e), λ h. absurd (true-ne-false h))
        | inl e ↦ elim (Bool-cases got.arrived) [
          | inl more ↦
              let coming = source.arrived-coming s.world slot waits more in
              let first = rw coming at sound.frames in
              let start = opened fb got.dst (source.coming got.next) sound.ring e first.0 in
              let t = record s { buffer = open_frame (filled fb got.dst); world = got.next } in
              subst (Ensured s) (sym (ensure_frame_arrived waits s e more)) (
                record { ring = start.0; frames = first.1 },
                refl,
                start.1 ∙ rw coming refl,
                λ _. (
                  record { slot = fb.read_pos; offset = fb.header_offset + sendhead_size },
                  refl,
                ),
                λ h. absurd (true-ne-false h),
              )
          | inr none_yet ↦
              let still = source.missed-coming s.world slot waits none_yet in
              let same = scribbled_empty fb got.dst (source.coming got.next) sound.ring e in
              subst (Ensured s) (sym (ensure_frame_missed waits s e none_yet)) (
                record { ring = same.0; frames = rw still (sound.frames) },
                refl,
                same.1 ∙ rw still refl,
                λ t. absurd (true-ne-false (sym t)),
                λ _. e,
              )
        ]
      ]

  -- What a round has done that was begun with a filter and with packets left.
  abbrev pub Rounded : Work source matcher → Outcome source matcher → Type 0
  Rounded s (retry t) =
      IsSound t
      × (head : CapHeader) × (left s ≡ head ∷ left t)
      × (decide matcher s.filter head ≡ some (false, t.filter))
  Rounded s (returned ok t) =
      IsSound t
      × (place : Place) × (t.header ≡ some place)
      × (left s ≡ header_at t.buffer place ∷ left t)
      × (decide matcher s.filter (header_at t.buffer place) ≡ some (true, t.filter))
  Rounded s (returned eof t) = ⊥
  Rounded s (returned (error e) t) =
      IsSound t
      × (e ≡ eagain)
      × (t.buffer.read_ptr ≡ none)
      × (t.filter ≡ s.filter)
      × (left s ≡ left t)
  Rounded s aborted = ⊥
  Rounded s hanging = (head : CapHeader) × (decide matcher s.filter head ≡ none)

  passed :
      (s : Work source matcher) (place : Place)
      → IsSound s
      → s.buffer.read_ptr ≡ some place
      → IsRing (pass s.buffer place)
        × ((pass s.buffer place).header_offset ≡ s.buffer.header_offset)
        × (left s
            ≡ header_at s.buffer place ∷ pending (pass s.buffer place) (source.coming s.world))
        × (header_at (pass s.buffer place) place ≡ header_at s.buffer place)
  passed s place sound e = pass-pending s.buffer place (source.coming s.world) sound.ring e

  judge-Rounded :
      (s : Work source matcher) (place : Place) (answer : Option (Bool × Option matcher.State))
      → IsSound s
      → s.buffer.read_ptr ≡ some place
      → decide matcher s.filter (header_at (pass s.buffer place) place) ≡ answer
      → Rounded s (judge source matcher s place answer)
  unfolding judge
  judge-Rounded s place none sound e d = (header_at (pass s.buffer place) place, d)
  judge-Rounded s place (some (true, g)) sound e d =
      let fb = pass s.buffer place in
      let coming = source.coming s.world in
      let (ring', offset, step, same) = passed s place sound e in
      let (ring'', unchanged) = counted-pending fb (u64 (fb.stat_matched + 1)) coming ring' in
      (
        record { ring = ring''; frames = rw offset (sound.frames) },
        place,
        refl,
        step ∙ ap₂ ◌∷◌ (sym same) (sym unchanged),
        d,
      )
  judge-Rounded s place (some (false, g)) sound e d =
      let fb = pass s.buffer place in
      let (ring', offset, step, same) = passed s place sound e in
      (
        record { ring = ring'; frames = rw offset (sound.frames) },
        header_at fb place,
        step ∙ ap (λ h. h ∷ pending fb (source.coming s.world)) (sym same),
        d,
      )

  find_packet_shows :
      (s : Work source matcher) (place : Place)
      → s.buffer.num_packets ≢ 0
      → s.buffer.read_ptr ≡ some place
      → find_packet source matcher s ≡ present source matcher s place
  unfolding find_packet
  find_packet_shows s place some_left e = ground (arith, e, some_left)

  find_packet-Rounded :
      (s : Work source matcher) (place : Place)
      → IsSound s
      → s.buffer.read_ptr ≡ some place
      → Rounded s (find_packet source matcher s)
  unfolding present
  find_packet-Rounded s place sound e =
      let reading = subst (Reading s.buffer) e sound.ring.reading in
      subst (Rounded s) (sym (find_packet_shows s place reading.1 e)) (
        judge-Rounded s place (decide matcher s.filter (header_at (pass s.buffer place) place))
          sound e refl)

  carry_over :
      (s t : Work source matcher) (outcome : Outcome source matcher)
      → t.filter ≡ s.filter
      → left t ≡ left s
      → Rounded t outcome
      → Rounded s outcome
  carry_over s t (retry u) f l (sound, head, h, d) = (sound, head, sym l ∙ h, rw (← f) d)
  carry_over s t (returned ok u) f l (sound, place, p, h, d) =
      (sound, place, p, sym l ∙ h, rw (← f) d)
  carry_over s t (returned eof u) f l h = h
  carry_over s t (returned (error n) u) f l (sound, e, p, g, h) = (sound, e, p, g ∙ f, sym l ∙ h)
  carry_over s t aborted f l h = h
  carry_over s t hanging f l (head, d) = (head, rw (← f) d)

  after_ensure :
      (s : Work source matcher) (result : Bool × Work source matcher)
      → Ensured s result
      → Rounded s (
          if result.0
          then find_packet source matcher (top_up source matcher result.1)
          else returned (error eagain) result.1)
  after_ensure s (false, t) (sound, f, l, _, nothing) = (sound, refl, nothing refl, f, sym l)
  after_ensure s (true, t) (sound, f, l, something, _) =
      let (place, e) = something refl in
      let (sound', e', f', l') = top_up-left t place sound e in
      carry_over s (top_up source matcher t) (find_packet source matcher (top_up source matcher t))
        (f' ∙ f) (l' ∙ l) (find_packet-Rounded (top_up source matcher t) place sound' e')

  pub frame_round-Rounded :
      (waits : Bool) (s : Work source matcher)
      → IsSound s
      → Rounded s (frame_round source matcher waits s)
  unfolding frame_round
  frame_round-Rounded waits s sound =
      after_ensure s (ensure_frame source matcher waits s) (ensure_frame-Ensured waits s sound)
