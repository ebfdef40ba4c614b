-- ===== src/Stream/Read/Refine.antt =====
-- What a round of the loop of `stream_read` of src/stream.c may come to, and how taking a packet
-- moves the read position.
pub mod Rounds
use libcap_utils.Prelude.{
  ℕ, ◌+◌, ◌-◌, ◌≤◌, ◌<◌, ◌≡◌, ◌≢◌, refl, sym, ap, ◌∙◌, Bool, true, false, Option, none, some, List,
  ◌++◌, length, length-append, append_assoc, Memory, ◌==◌, if_cases, ltb, leb, ◌&&◌, ◌||◌, u32,
  sub32, arith, ◌⊎◌, inl, inr,
}
use libcap_utils.Filter.{CapHeader}
use libcap_utils.Stream.{
  Stream, Status, ok, eof, error, Source, Matcher, cap_header_size, packet_size_at, cap_header_at,
}
use libcap_utils.Stream.Cells.{bytes_at-append, length-bytes_at}
use libcap_utils.Stream.Fill.{fill_buffer, is_full, IsWellFormed, pending, length-pending}
use libcap_utils.Stream.Fill.Lossless.{fill_buffer_lem, unread, Filled, Progress}
use libcap_utils.Stream.Read.{
  Situation, Round, again, returns, endless, eagain, decide, advance, matched, take_packet, resume,
  after_refill, after_rest, packet_or_rest, after_top_up, round,
}
use libcap_utils.Stream.Read.Spec.{packet_at}

module _ (source : Source) (matcher : Matcher) where
  abbrev pub left : Situation source matcher → List ℕ
  left s = unread source s.stream s.world

  -- What is yet to do: the bytes that are left, and again those that are yet to arrive.
  abbrev pub work : Situation source matcher → ℕ
  work s = length (left s) + length (source.rest s.world)

  -- What a round may come to, begun with a filter and bytes: it passes over nothing or over a packet
  -- that the filter rejects, with less to do unless the call is blocking, or it selects a packet. It
  -- is without an end only in the filter.
  unfoldable pub IsSafe : Bool → Option matcher.State → List ℕ → ℕ → Round source matcher → Type 0
  IsSafe blocking f bytes n (again s) =
      IsWellFormed s.stream
      × (blocking ≡ false → work s < n)
      × (((s.filter ≡ f) × (left s ≡ bytes))
          ⊎ ((m : Memory) × (at : ℕ) × (bytes ≡ packet_at m at ++ left s)
              × (decide matcher f (cap_header_at m at) ≡ some (false, s.filter))))
  IsSafe blocking f bytes n (returns ok s) =
      IsWellFormed s.stream
      × ((at : ℕ) × (s.data_at ≡ some at)
          × (bytes ≡ packet_at s.stream.buffer at ++ left s)
          × (decide matcher f (cap_header_at s.stream.buffer at) ≡ some (true, s.filter)))
  IsSafe blocking f bytes n (returns _ s) =
      IsWellFormed s.stream × (s.filter ≡ f) × (left s ≡ bytes)
  IsSafe blocking f bytes n endless =
      (g : Option matcher.State) × (head : CapHeader) × (decide matcher g head ≡ none)

pub advance-IsWellFormed :
    (st : Stream)
    → IsWellFormed st
    → st.read_pos + packet_size_at st.buffer st.read_pos ≤ st.write_pos
    → IsWellFormed (advance st)
unfolding advance
advance-IsWellFormed st w h = record {
  in_order = omega (arith, w.within, w.small);
  within = w.within;
  small = w.small;
}

advance-pending :
    (st : Stream)
    → IsWellFormed st
    → st.read_pos + packet_size_at st.buffer st.read_pos ≤ st.write_pos
    → pending st ≡ packet_at st.buffer st.read_pos ++ pending (advance st)
unfolding advance pending
advance-pending st w h =
    let size = packet_size_at st.buffer st.read_pos in
    let k = st.write_pos - (st.read_pos + size) in
    let sum : st.write_pos - st.read_pos ≡ size + k = omega arith in
    let small : u32 (st.read_pos + size) ≡ st.read_pos + size = omega (arith, w.within, w.small) in
    rw (sum, small) (bytes_at-append st.buffer st.read_pos size k)

pub matched-IsWellFormed : (st : Stream) → IsWellFormed st → IsWellFormed (matched st)
matched-IsWellFormed st w = record { in_order = w.in_order; within = w.within; small = w.small }

pub advance-unread :
    (source : Source) (st : Stream) (w : source.World)
    → IsWellFormed st
    → st.read_pos + packet_size_at st.buffer st.read_pos ≤ st.write_pos
    → unread source st w ≡ packet_at st.buffer st.read_pos ++ unread source (advance st) w
unfolding unread
advance-unread source st w wf h =
    ap (λ p. p ++ source.rest w) (advance-pending st wf h)
    ∙ append_assoc (packet_at st.buffer st.read_pos) (pending (advance st)) (source.rest w)

pub shorter :
    (m : Memory) (at : ℕ) (rest : List ℕ) {bytes : List ℕ}
    → bytes ≡ packet_at m at ++ rest
    → length rest + 36 ≤ length bytes
shorter m at rest h =
    let n = length-bytes_at m at (packet_size_at m at) in
    rw h (rw (length-append (packet_at m at) rest, n) (omega arith))
