-- ===== src/Stream/Fill.antt =====
-- `fill_buffer` of src/stream.c.
pub mod Lossless
use libcap_utils.Prelude.{
  ℕ, zero, suc, ◌+◌, ◌-◌, ◌^◌, ◌≤◌, ◌<◌, ◌≡◌, ◌≢◌, refl, sym, ap, ap₂, ◌∙◌, Bool, true, List, [],
  ◌∷◌, ◌++◌, length, length-append, ◌==◌, if◌then◌else◌, ltb, ◌&&◌, u32, sub32, sub64, append_assoc,
  arith, ◌⊎◌, if_cases, Bool-cases, inl, inr,
}
use libcap_utils.Stream.{
  Stream, Status, ok, eof, of_errno, Answer, received, closed, failed, Source, cap_header_size,
  packet_size_at,
}
use libcap_utils.Stream.Cells.{
  bytes_at, moved, stored, bytes_at-append, length-bytes_at, bytes_at-moved, bytes_at-stored,
  bytes_at-stored_before,
}

-- "don't need to fill file buffer unless drained"
abbrev pub is_full : Stream → Bool
is_full st =
    let left = sub64 st.buffer_size st.read_pos in
    sub64 st.buffer_size st.write_pos == 0
    && ltb cap_header_size left
    && ltb (packet_size_at st.buffer st.read_pos) left

-- "copy old content"
unfoldable pub compact : Stream → Stream
unfolding moved
compact st =
    if ltb 0 st.read_pos
    then (let bytes = sub32 st.write_pos st.read_pos in
        record st { buffer = moved st.buffer st.read_pos bytes; write_pos = bytes; read_pos = 0 })
    else st

-- The bytes that the callback wrote to `buffer + write_pos`.
unfoldable pub append : Stream → List ℕ → Stream
unfolding stored
append st bytes = record st {
  buffer = stored st.buffer st.write_pos bytes;
  write_pos = u32 (st.write_pos + length bytes);
}

module _ (source : Source) where
  unfoldable pub take_answer : Stream → Answer × source.World → Status × Stream × source.World
  unfolding append
  take_answer st (received [], w) = (eof, st, w)
  take_answer st (received (b ∷ bytes), w) = (ok, append st (b ∷ bytes), w)
  take_answer st (closed, w) = (eof, st, w)
  take_answer st (failed errno, w) = (of_errno errno, st, w)

  unfoldable pub fill_buffer : Stream → source.World → Status × Stream × source.World
  unfolding take_answer compact
  fill_buffer st w =
      let st' = compact st in
      if st.flushed
      then (eof, st, w)
      else if is_full st
      then (ok, st, w)
      else take_answer st' (source.receive w (sub64 st'.buffer_size st'.write_pos))

-- The read and the write position are in order and within the buffer, whose size is less than what
-- an unsigned int holds.
pub record IsWellFormed (st : Stream) : Type 0 where
  pub in_order : st.read_pos ≤ st.write_pos
  pub within : st.write_pos ≤ st.buffer_size
  pub small : st.buffer_size < 2 ^ 32

-- The bytes that are buffered and not read yet.
unfoldable pub pending : Stream → List ℕ
pending st = bytes_at st.buffer st.read_pos (st.write_pos - st.read_pos)

pub length-pending : (st : Stream) → length (pending st) ≡ st.write_pos - st.read_pos
unfolding pending
length-pending st = length-bytes_at st.buffer st.read_pos (st.write_pos - st.read_pos)
