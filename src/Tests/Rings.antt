-- ===== src/Tests/Rings.antt =====
-- The theorems on the ring of measurement frames at a buffer of two slots, with a frame of two packets
-- to come, and with a frame that says that it holds none.
use libcap_utils.Prelude.{
  ℕ, ◌+◌, ◌<◌, ◌≡◌, ◌≢◌, refl, Bool, true, false, Option, none, some, List, [], ◌∷◌, ◌++◌,
  replicate, length, All, Memory, memory_of, be32, be16, arith,
}
use libcap_utils.Filter.{CapHeader}
use libcap_utils.Stream.{Status, Matcher}
use libcap_utils.Stream.Ring.{
  Arrival, FrameSource, FrameBuffer, Work, returned, aborted, stream_frame_init,
  stream_frame_buffer_read,
}
use libcap_utils.Stream.Ring.Queue.{
  HasPacket, pending, headers, all_headers, frame_headers, queued, current,
}
use libcap_utils.Stream.Ring.Fifo.{
  Delivers, stream_frame_buffer_read-Delivers, stream_frame_buffer_read_empty_frame,
  stream_frame_init-IsRing,
}
use libcap_utils.Tests.Streams.{packet}

deliver : List Memory → Memory → Bool → Arrival (List Memory)
deliver [] slot waits = record { arrived = false; dst = slot; next = [] }
deliver (m ∷ ms) slot waits = record { arrived = true; dst = m; next = ms }

deliver_arrived :
    (w : List Memory) (slot : Memory) (waits : Bool)
    → (deliver w slot waits).arrived ≡ true
    → w ≡ (deliver w slot waits).dst ∷ (deliver w slot waits).next
unfolding deliver
deliver_arrived [] slot waits h = absurd (ground (arith, h))
deliver_arrived (m ∷ ms) slot waits h = refl

deliver_missed :
    (w : List Memory) (slot : Memory) (waits : Bool)
    → (deliver w slot waits).arrived ≡ false
    → (deliver w slot waits).next ≡ w
unfolding deliver
deliver_missed [] slot waits h = refl
deliver_missed (m ∷ ms) slot waits h = absurd (ground (arith, h))

-- A network that has frames on their way.
abbrev network : FrameSource
network = record {
  World = List Memory;
  receive = deliver;
  coming = λ w. w;
  arrived-coming = deliver_arrived;
  missed-coming = deliver_missed;
}

accept_all : ℕ → CapHeader → Option (Bool × ℕ)
accept_all n head = some (true, n + 1)

abbrev counter : Matcher
counter = record { State = ℕ; apply = accept_all }

counter_answers : (head : CapHeader) (g : ℕ) → accept_all g head ≢ none
unfolding accept_all
counter_answers head g h = absurd (ground (arith, h))

abbrev full_frame : Memory
full_frame =
    memory_of ((0 ∷ 0 ∷ 0 ∷ 1 ∷ 0 ∷ 0 ∷ 0 ∷ 2 ∷ []) ++ replicate 8 0 ++ packet 3 ++ packet 2)

abbrev empty_frame : Memory
empty_frame = memory_of (replicate 16 0)

abbrev two_slots : FrameBuffer
two_slots = stream_frame_init (λ i j. 0) 2 1500

frames_hold_packets : All (HasPacket 0) (full_frame ∷ full_frame ∷ [])
unfolding be32 be16
frames_hold_packets = (omega arith, (omega arith, tt))

few_packets : length (pending two_slots (full_frame ∷ full_frame ∷ [])) < 5
unfolding pending headers all_headers frame_headers queued current be32 be16 stream_frame_init
few_packets = omega arith

stream_frame_buffer_read-Delivers_example :
    (status : Status) × (t : Work network counter) × (stream_frame_buffer_read network counter 5
        true two_slots
        (some 0)
        (full_frame ∷ full_frame ∷ [])
      ≡ returned status t)
    × Delivers network counter (some 0) (pending two_slots (full_frame ∷ full_frame ∷ [])) status t
unfolding stream_frame_init
stream_frame_buffer_read-Delivers_example =
    stream_frame_buffer_read-Delivers network counter 5 true two_slots (some 0)
      (full_frame ∷ full_frame ∷ []) counter_answers
      (stream_frame_init-IsRing (λ i j. 0) 2 1500 (omega arith) (omega arith)) frames_hold_packets
      few_packets

stream_frame_buffer_read_empty_frame_example :
    stream_frame_buffer_read network counter 1 true two_slots none (empty_frame ∷ []) ≡ aborted
unfolding stream_frame_init deliver be32 be16
stream_frame_buffer_read_empty_frame_example =
    stream_frame_buffer_read_empty_frame network counter 0 true two_slots none (empty_frame ∷ [])
      refl refl refl refl
