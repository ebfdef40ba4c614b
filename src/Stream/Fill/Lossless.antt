-- ===== src/Stream/Fill/Lossless.antt =====
-- That `fill_buffer` of src/stream.c loses no byte.
use libcap_utils.Prelude.{
  ℕ, zero, suc, ◌+◌, ◌-◌, ◌≤◌, ◌<◌, ◌≡◌, refl, sym, ap, ap₂, ◌∙◌, true, List, [], ◌∷◌, ◌++◌, length,
  length-append, ltb, u32, sub32, sub64, append_assoc, arith, ◌⊎◌, if_cases, Bool-cases, inl, inr,
}
use libcap_utils.Stream.{Stream, Status, ok, eof, Answer, received, closed, failed, Source}
use libcap_utils.Stream.Cells.{
  stored, bytes_at-append, bytes_at-moved, bytes_at-stored, bytes_at-stored_before,
}
use libcap_utils.Stream.Fill.{
  is_full, compact, append, take_answer, fill_buffer, IsWellFormed, pending,
}

compact-IsWellFormed : (st : Stream) → IsWellFormed st → IsWellFormed (compact st)
unfolding compact
compact-IsWellFormed st w = record {
  in_order = ground (arith, w.in_order, w.within, w.small);
  within = ground (arith, w.in_order, w.within, w.small);
  small = ground (arith, w.small);
}

compact-pending : (st : Stream) → IsWellFormed st → pending (compact st) ≡ pending st
unfolding pending compact
compact-pending st w = elim (Bool-cases (ltb 0 st.read_pos)) [
  | inl h ↦
      let n = st.write_pos - st.read_pos in
      let e : sub32 st.write_pos st.read_pos ≡ n = omega (arith, w.in_order, w.within, w.small) in
      let z : n - 0 ≡ n = omega arith in rw (h, e, z) (bytes_at-moved st.buffer st.read_pos n)
  | inr h ↦ rw h refl
]

append-IsWellFormed :
    (st : Stream) (bytes : List ℕ)
    → IsWellFormed st
    → length bytes ≤ st.buffer_size - st.write_pos
    → IsWellFormed (append st bytes)
unfolding append
append-IsWellFormed st bytes w h = record {
  in_order = omega (arith, w.in_order, w.within, w.small);
  within = omega (arith, w.in_order, w.within, w.small);
  small = w.small;
}

append-pending :
    (st : Stream) (bytes : List ℕ)
    → IsWellFormed st
    → length bytes ≤ st.buffer_size - st.write_pos
    → pending (append st bytes) ≡ pending st ++ bytes
unfolding pending append
append-pending st bytes w h =
    let n = st.write_pos - st.read_pos in
    let m = stored st.buffer st.write_pos bytes in
    let len : u32 (st.write_pos + length bytes) - st.read_pos ≡ n + length bytes =
      omega (arith, w.in_order, w.within, w.small) in
    let end : st.read_pos + n ≡ st.write_pos = omega (arith, w.in_order) in
    rw
      (
        len,
        bytes_at-append m st.read_pos n (length bytes),
        end,
        bytes_at-stored st.buffer st.write_pos bytes,
      )
      (ap (λ p. p ++ bytes)
        (bytes_at-stored_before st.buffer st.read_pos n st.write_pos bytes
          (omega (arith, w.in_order))))

-- What is left after a call: the buffered bytes, and then what the callback has yet to deliver.
unfoldable pub unread : (source : Source) → Stream → source.World → List ℕ
unfolding pending
unread source st w = pending st ++ source.rest w

-- After a return of 0 the buffer was full, with a packet at its beginning, or bytes have arrived;
-- after any other return the buffered bytes are the same.
unfoldable pub Progress :
    (source : Source) → Stream → source.World → Status → Stream → source.World → Type 0
Progress source st w ok st' w' =
    (is_full st ≡ true) ⊎ (length (source.rest w') < length (source.rest w))
Progress source st w _ st' w' = pending st' ≡ pending st

-- How a call of `fill_buffer` that returns `status` has changed the stream and the world.
pub record Filled (source : Source) (st : Stream) (w : source.World) (status : Status)
    (st' : Stream) (w' : source.World) : Type 0 where
  pub well_formed : IsWellFormed st'
  pub same_size : st'.buffer_size ≡ st.buffer_size
  pub same_unread : unread source st' w' ≡ unread source st w
  pub fewer : length (source.rest w') ≤ length (source.rest w)
  pub progress : Progress source st w status st' w'

compact-size : (st : Stream) → (compact st).buffer_size ≡ st.buffer_size
unfolding compact
compact-size st = ground arith

module _ (source : Source) (st : Stream) (w : source.World) (wf : IsWellFormed st) where
  still : (status : Status) → Progress source st w status st w → Filled source st w status st w
  still status full = record {
    well_formed = wf;
    same_size = refl;
    same_unread = refl;
    fewer = omega arith;
    progress = full;
  }

  -- The callback's answer, taken after the old content was moved.
  taken :
      (answer : Answer) (w' : source.World)
      → source.receive w (sub64 (compact st).buffer_size (compact st).write_pos) ≡ (answer, w')
      → let (status, st', w'') = take_answer source (compact st) (answer, w') in
        Filled source st w status st' w''
  unfolding take_answer unread Progress
  taken (received []) w' h = absurd (
      omega (
        arith,
        (source.received-rest w (sub64 (compact st).buffer_size (compact st).write_pos) h).0,
      ))
  taken (received (b ∷ bytes)) w' h =
      let st' = compact st in
      let wf' = compact-IsWellFormed st wf in
      let (_, bound, r) = source.received-rest w (sub64 st'.buffer_size st'.write_pos) h in
      let fits : length (b ∷ bytes) ≤ st'.buffer_size - st'.write_pos =
        omega (arith, bound, wf'.within, wf'.small) in
      record {
        well_formed = append-IsWellFormed st' (b ∷ bytes) wf' fits;
        same_size = compact-size st;
        same_unread =
            ap (λ p. p ++ source.rest w') (append-pending st' (b ∷ bytes) wf' fits)
            ∙ append_assoc (pending st') (b ∷ bytes) (source.rest w')
            ∙ ap₂ (λ p r. p ++ r) (compact-pending st wf) (sym r);
        fewer = rw r (rw (length-append (b ∷ bytes) (source.rest w')) (omega arith));
        progress = inr (rw r (rw (length-append (b ∷ bytes) (source.rest w')) (omega arith)));
      }
  taken closed w' h = record {
    well_formed = compact-IsWellFormed st wf;
    same_size = compact-size st;
    same_unread =
        ap₂ (λ p r. p ++ r) (compact-pending st wf)
          (source.closed-rest w (sub64 (compact st).buffer_size (compact st).write_pos) h);
    fewer =
        rw (source.closed-rest w (sub64 (compact st).buffer_size (compact st).write_pos) h)
          (omega arith);
    progress = compact-pending st wf;
  }
  taken (failed zero) w' h = absurd (
      omega
        (arith, (source.failed-rest w (sub64 (compact st).buffer_size (compact st).write_pos) h).0))
  taken (failed (suc errno)) w' h = record {
    well_formed = compact-IsWellFormed st wf;
    same_size = compact-size st;
    same_unread =
        ap₂ (λ p r. p ++ r) (compact-pending st wf)
          (source.failed-rest w (sub64 (compact st).buffer_size (compact st).write_pos) h).1;
    fewer =
        rw ((source.failed-rest w (sub64 (compact st).buffer_size (compact st).write_pos) h).1)
          (omega arith);
    progress = compact-pending st wf;
  }

  -- A call of `fill_buffer` on a well-formed stream keeps it well formed and loses none of the bytes:
  -- what is buffered followed by what is yet to come stays the same. If it returns 0, then either
  -- the buffer is full with a packet at its beginning or bytes have arrived.
  pub fill_buffer_lem :
      let (status, st', w') = fill_buffer source st w in Filled source st w status st' w'
  unfolding fill_buffer Progress
  fill_buffer_lem =
      let P : Status × Stream × source.World → Type 0 = λ r. Filled source st w r.0 r.1 r.2 in
      let st' = compact st in
      let (answer, w') = source.receive w (sub64 st'.buffer_size st'.write_pos) in
      if_cases P st.flushed (λ h. still eof refl)
        (λ h. if_cases P (is_full st) (λ f. still ok (inl f)) (λ f. taken answer w' refl))
