-- ===== src/Stream/Read/Ends.antt =====
-- What a call of `stream_read` of src/stream.c comes to, and that it does.
use libcap_utils.Prelude.{
  ℕ, zero, suc, ◌+◌, ◌<◌, ◌≡◌, ◌≢◌, refl, sym, Bool, false, Option, none, some, List, ◌++◌, length,
  Memory, arith, ◌⊎◌, inl, inr,
}
use libcap_utils.Filter.{CapHeader}
use libcap_utils.Stream.{Stream, Status, ok, eof, error, Source, Matcher, cap_header_at}
use libcap_utils.Stream.Fill.{IsWellFormed}
use libcap_utils.Stream.Fill.Lossless.{unread}
use libcap_utils.Stream.Read.{
  Situation, Round, again, returns, endless, decide, round, read_loop, stream_read,
}
use libcap_utils.Stream.Read.Spec.{Selects, hit, miss, Passes, stays, passes, packet_at}
use libcap_utils.Stream.Read.Refine.{left, work, IsSafe}
use libcap_utils.Stream.Read.Refine.Rounds.{round-IsSafe}

-- What a call has done that was begun with a filter and with bytes left. When it returns 0, its
-- pointer is at the packet that the filter selects, and the bytes behind it are left. Otherwise it
-- has passed over packets that the filter rejects, and all other bytes are left.
unfoldable pub Reads :
    (source : Source) (matcher : Matcher)
    → Option matcher.State
    → List ℕ
    → Status × Situation source matcher
    → Type 0
Reads source matcher f bytes (ok, s) =
    IsWellFormed s.stream
    × ((at : ℕ) × (s.data_at ≡ some at)
        × Selects source matcher f bytes (packet_at s.stream.buffer at) s.filter
            (left source matcher s))
Reads source matcher f bytes (_, s) =
    IsWellFormed s.stream × Passes source matcher f bytes s.filter (left source matcher s)

module _ (matcher : Matcher) where
  pub decide-ne-none :
      (f : Option matcher.State) (head : CapHeader)
      → ((g : matcher.State) → matcher.apply g head ≢ none)
      → decide matcher f head ≢ none
  unfolding decide
  decide-ne-none none head total = λ e. absurd (ground arith)
  decide-ne-none (some g) head total = ground (arith, total g)

module _ (source : Source) (matcher : Matcher) where
  Reads_miss :
      (m : Memory) (at : ℕ) (f g : Option matcher.State) (bytes next : List ℕ)
      (result : Status × Situation source matcher)
      → bytes ≡ packet_at m at ++ next
      → decide matcher f (cap_header_at m at) ≡ some (false, g)
      → Reads source matcher g next result
      → Reads source matcher f bytes result
  unfolding Reads
  Reads_miss m at f g bytes next (ok, s) e d (wf, (at', p, selects)) =
      (wf, (at', p, miss m at e d selects))
  Reads_miss m at f g bytes next (eof, s) e d (wf, past) = (wf, passes m at e d past)
  Reads_miss m at f g bytes next (error n, s) e d (wf, past) = (wf, passes m at e d past)

  Reads_step :
      (f g : Option matcher.State) (bytes next : List ℕ)
      (result : Status × Situation source matcher)
      → (((g ≡ f) × (next ≡ bytes))
          ⊎ ((m : Memory) × (at : ℕ) × (bytes ≡ packet_at m at ++ next)
              × (decide matcher f (cap_header_at m at) ≡ some (false, g))))
      → Reads source matcher g next result
      → Reads source matcher f bytes result
  Reads_step f g bytes next result (inl (e, d)) h = rw (sym e, sym d) h
  Reads_step f g bytes next result (inr (m, at, e, d)) h =
      Reads_miss m at f g bytes next result e d h

  Reads_return :
      (blocking : Bool) (f : Option matcher.State) (bytes : List ℕ) (n : ℕ) (status : Status)
      (s : Situation source matcher)
      → IsSafe source matcher blocking f bytes n (returns status s)
      → Reads source matcher f bytes (status, s)
  unfolding Reads IsSafe
  Reads_return blocking f bytes n ok s (wf, (at, p, e, d)) =
      (wf, (at, p, hit s.stream.buffer at e d))
  Reads_return blocking f bytes n eof s (wf, e, d) = (wf, rw (e, d) stays)
  Reads_return blocking f bytes n (error k) s (wf, e, d) = (wf, rw (e, d) stays)

  follow :
      (fuel : ℕ) (blocking : Bool) (s : Situation source matcher) (r : Round source matcher)
      (result : Status × Situation source matcher)
      → round source matcher blocking s ≡ r
      → IsSafe source matcher blocking s.filter (left source matcher s) (work source matcher s) r
      → ((next : Situation source matcher)
          → IsWellFormed next.stream
          → read_loop source matcher fuel blocking next ≡ some result
          → Reads source matcher next.filter (left source matcher next) result)
      → read_loop source matcher (suc fuel) blocking s ≡ some result
      → Reads source matcher s.filter (left source matcher s) result
  unfolding read_loop IsSafe
  follow fuel blocking s (again next) result e (wf, _, step) ih h =
      Reads_step s.filter next.filter (left source matcher s) (left source matcher next) result step
        (ih next wf (ground (arith, h, e)))
  follow fuel blocking s (returns status next) result e safe ih h =
      let same : (status, next) ≡ result = ground (arith, h, e) in
      rw (sym same) (
        Reads_return blocking s.filter (left source matcher s) (work source matcher s) status next
          safe)
  follow fuel blocking s endless result e safe ih h = absurd (ground (arith, h, e))

  read_loop-Reads :
      (fuel : ℕ) (blocking : Bool) (s : Situation source matcher)
      (result : Status × Situation source matcher)
      → IsWellFormed s.stream
      → read_loop source matcher fuel blocking s ≡ some result
      → Reads source matcher s.filter (left source matcher s) result
  unfolding read_loop
  read_loop-Reads zero blocking s result wf h = absurd (ground (arith, h))
  read_loop-Reads (suc fuel) blocking s result wf h =
      follow fuel blocking s (round source matcher blocking s) result refl
        (round-IsSafe source matcher blocking s wf)
        (λ next w. read_loop-Reads fuel blocking next result w) h

  -- When `stream_read` returns 0 from a well-formed stream, the packet at its pointer is the next one
  -- that the filter accepts in the bytes that were buffered and yet to come, however they arrive, and
  -- the bytes behind it are left for the next call. When it returns an error or the end of the
  -- stream, all that it has read are packets that the filter rejects.
  pub stream_read-Reads :
      (fuel : ℕ) (blocking : Bool) (st : Stream) (filter : Option matcher.State) (w : source.World)
      (result : Status × Situation source matcher)
      → IsWellFormed st
      → stream_read source matcher fuel blocking st filter w ≡ some result
      → Reads source matcher filter (unread source st w) result
  unfolding stream_read
  stream_read-Reads fuel blocking st filter w result wf h =
      read_loop-Reads fuel blocking
        (record { data_at = none; stream = st; filter = filter; world = w }) result wf h

  continue :
      (fuel : ℕ) (s : Situation source matcher) (r : Round source matcher)
      → ((head : CapHeader) (g : matcher.State) → matcher.apply g head ≢ none)
      → round source matcher false s ≡ r
      → IsSafe source matcher false s.filter (left source matcher s) (work source matcher s) r
      → ((next : Situation source matcher)
          → IsWellFormed next.stream
          → work source matcher next < work source matcher s
          → (result : Status × Situation source matcher) × (read_loop source matcher fuel false next
              ≡ some result))
      → (result : Status × Situation source matcher) × (read_loop source matcher (suc fuel) false s
          ≡ some result)
  unfolding read_loop IsSafe
  continue fuel s (again next) total e (wf, less, _) ih =
      let (result, h) = ih next wf (less refl) in (result, rw (read_loop, e) h)
  continue fuel s (returns status next) total e safe ih = ((status, next), rw (read_loop, e) refl)
  continue fuel s endless total e (g, head, d) ih =
      absurd (decide-ne-none matcher g head (total head) d)

  read_loop_returns :
      (fuel : ℕ) (s : Situation source matcher)
      → ((head : CapHeader) (g : matcher.State) → matcher.apply g head ≢ none)
      → IsWellFormed s.stream
      → work source matcher s < fuel
      → (result : Status × Situation source matcher) × (read_loop source matcher fuel false s
          ≡ some result)
  read_loop_returns zero s total wf b = absurd (omega (arith, b))
  read_loop_returns (suc fuel) s total wf b =
      continue fuel s (round source matcher false s) total refl
        (round-IsSafe source matcher false s wf)
        (λ next w less. read_loop_returns fuel next total w (omega (arith, b, less)))

  -- A call of `stream_read` with a timeout returns, if the filter always answers: every round but
  -- the last reads a packet or brings bytes, so the bytes bound the number of rounds. What it
  -- returns is as `Reads` says.
  pub stream_read_returns :
      (fuel : ℕ) (st : Stream) (filter : Option matcher.State) (w : source.World)
      → ((head : CapHeader) (g : matcher.State) → matcher.apply g head ≢ none)
      → IsWellFormed st
      → length (unread source st w) + length (source.rest w) < fuel
      → (result : Status × Situation source matcher) × (stream_read source matcher fuel false st
            filter w
          ≡ some result)
        × Reads source matcher filter (unread source st w) result
  unfolding stream_read
  stream_read_returns fuel st filter w total wf b =
      let s : Situation source matcher = record {
        data_at = none;
        stream = st;
        filter = filter;
        world = w;
      } in
      let (result, h) = read_loop_returns fuel s total wf b in
      (result, h, read_loop-Reads fuel false s result wf h)
