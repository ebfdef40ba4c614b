-- ===== src/Filter/Frames/Run.antt =====
-- A filter on frame ranges alone, run over a trace.
use libcap_utils.Prelude.{
  ℕ, ◌+◌, ◌≡◌, ◌≢◌, ◌^◌, refl, arith, ◌∙◌, ap₂, Bool, true, none, some, List, [], ◌∷◌, All, Memory,
  ◌≤◌, ◌<◌, length, inr,
}
use libcap_utils.Packet.{endless, find_ipv4_header}
use libcap_utils.Filter.{Filter, CapHeader, Range, all_of, selected}
use libcap_utils.Filter.Criteria.{filter_frame_num}
use libcap_utils.Filter.Core.{filter_core}
use libcap_utils.Filter.Core.Decision.{IsWellFormed, filter_core_at-judgement, filter_core_ends}
use libcap_utils.Filter.Match.{prune, start, settle, core_match, bpf_match, filter_match, run}
use libcap_utils.Filter.Frames.{
  in_ranges, Separated, IsCurrent, frame_num_range-in_ranges, prune-Separated, prune-IsCurrent,
  in_ranges-prune,
}

-- The filter that `filter_frame_num_set` makes of a fresh one: only the frame number is selected.
pub record IsFrameFilter (f : Filter) : Type 0 where
  pub only : f.index ≡ 2 ^ 15
  pub all : f.mode ≡ all_of
  pub no_bpf : f.bpf_insn ≡ none

-- The search for an IPv4 header comes to an end.
abbrev pub Ends : ℕ → CapHeader → Type 0
Ends fuel head = find_ipv4_header fuel head.payload ≢ endless

IsFrameFilter-IsWellFormed : {f : Filter} → IsFrameFilter f → IsWellFormed f
IsFrameFilter-IsWellFormed w = record {
  index_fits = rw (w.only) (omega arith);
  ranges_selected = inr (rw (w.only) (unfold selected in refl));
}

filter_core_frame_num :
    (fuel : ℕ) (f : Filter) (head : CapHeader)
    → IsFrameFilter f
    → Ends fuel head
    → filter_core fuel f head.payload head ≡ some (filter_frame_num f)
unfolding selected
filter_core_frame_num fuel f head w ends =
    let (ip, e) = filter_core_ends fuel f head.payload head ends in
    e
    ∙ filter_core_at-judgement f head.payload head ip (IsFrameFilter-IsWellFormed w)
    ∙ rw (w.only, w.all) (ground arith)

-- What a step leaves alone, with the fields that it moves on.
step-IsFrameFilter :
    {f : Filter} (head : CapHeader) (match : Bool)
    → IsFrameFilter f
    → IsFrameFilter (settle (start f head) head match)
unfolding settle start
step-IsFrameFilter {f} head match w = ground arith

-- The frames of a trace by number, and whether the ranges hold them.
abbrev pub picks : ℕ → List Range → List CapHeader → List Bool
picks n rs [] = []
picks n rs (head ∷ rest) = in_ranges n rs ∷ picks (n + 1) rs rest

picks-prune :
    (n k : ℕ) (rs : List Range) (heads : List CapHeader)
    → n ≤ k
    → picks k (prune rs n) heads ≡ picks k rs heads
picks-prune n k rs [] h = refl
picks-prune n k rs (head ∷ rest) h =
    ap₂ ◌∷◌ (in_ranges-prune n k rs h) (picks-prune n (k + 1) rs rest (omega arith))

start-IsFrameFilter :
    {f : Filter} (head : CapHeader) → IsFrameFilter f → IsFrameFilter (start f head)
unfolding start
start-IsFrameFilter {f} head w = ground arith

-- The exception for the first packet leaves the ranges and the counter alone.
start_frames :
    (f : Filter) (head : CapHeader)
    → ((start f head).frame_num ≡ f.frame_num) × ((start f head).frame_counter ≡ f.frame_counter)
unfolding start
start_frames f head = ground arith

filter_frame_num-start :
    (f : Filter) (head : CapHeader) → filter_frame_num (start f head) ≡ filter_frame_num f
unfolding filter_frame_num start
filter_frame_num-start f head = ground arith

core_match_frame_num :
    (fuel : ℕ) (f : Filter) (head : CapHeader)
    → IsFrameFilter f
    → Ends fuel head
    → core_match fuel f head ≡ some (filter_frame_num f)
unfolding core_match
core_match_frame_num fuel f head w ends =
    ground (arith, filter_core_frame_num fuel f head w ends, w.only)

module _ (bpf_filter : List ℕ → Memory → ℕ → ℕ → Bool) where
  no_bpf_match :
      (f : Filter) (head : CapHeader)
      → IsFrameFilter f
      → bpf_match bpf_filter f.bpf_insn head ≡ true
  unfolding bpf_match
  no_bpf_match f head w = rw (w.no_bpf)

  pub filter_match_frame_num :
      (fuel : ℕ) (f : Filter) (head : CapHeader)
      → IsFrameFilter f
      → Ends fuel head
      → f.frame_counter + 1 < 2 ^ 31
      → filter_match bpf_filter fuel f head
        ≡ some (filter_frame_num f, settle (start f head) head (filter_frame_num f))
  unfolding filter_match
  filter_match_frame_num fuel f head w ends few =
      let v = start-IsFrameFilter head w in
      let (_, counter) = start_frames f head in
      rw
        (
          filter_match,
          core_match_frame_num fuel (start f head) head v ends,
          no_bpf_match (start f head) head v,
          filter_frame_num-start f head,
        )
        (ground (arith, counter))

  -- The state after a step, as far as the ranges are concerned.
  settled_frames :
      (f : Filter) (head : CapHeader) (match : Bool)
      → let g = settle (start f head) head match in
        (g.frame_num ≡ prune f.frame_num f.frame_counter) × (g.frame_counter ≡ f.frame_counter + 1)
  unfolding settle
  settled_frames f head match = let (e, d) = start_frames f head in (rw (e, d), rw d)

  -- A filter on frame ranges alone, over a trace in which the search for a header always ends and
  -- which is short enough for the counter, an int. If
  -- the ranges are in order, each with its bounds the right way round and with a frame between it
  -- and the next, then a frame matches exactly if one of the ranges holds its number.
  pub run-picks :
      (fuel : ℕ) (f : Filter) (heads : List CapHeader)
      → IsFrameFilter f
      → Separated f.frame_num
      → IsCurrent f.frame_counter f.frame_num
      → All (Ends fuel) heads
      → f.frame_counter + length heads < 2 ^ 31
      → run bpf_filter fuel f heads ≡ some (picks f.frame_counter f.frame_num heads)
  unfolding run filter_frame_num
  run-picks fuel f [] w s c ends few = refl
  run-picks fuel f (head ∷ rest) w s c ends few =
      let n = f.frame_counter in
      let rs = f.frame_num in
      let g = settle (start f head) head (filter_frame_num f) in
      let (e, d) = settled_frames f head (filter_frame_num f) in
      let ih =
        run-picks fuel g rest (step-IsFrameFilter head (filter_frame_num f) w)
          (rw e (prune-Separated n rs s)) (rw (e, d) (prune-IsCurrent n rs s c)) (ends.1)
          (omega (arith, few, d)) in
      rw (run, filter_match_frame_num fuel f head w (ends.0) (omega (arith, few)), ih, e, d)
        (ap₂ (λ b (bs : List Bool). some (b ∷ bs)) (frame_num_range-in_ranges n rs s c)
          (picks-prune n (n + 1) rs rest (omega arith)))
