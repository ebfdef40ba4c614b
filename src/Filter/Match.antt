-- ===== src/Filter/Match.antt =====
-- `filter_match` of src/filter.c: the decision, and the state that it leaves.
use libcap_utils.Prelude.{
  ℕ, ◌+◌, Bool, true, false, Option, none, some, List, [], ◌∷◌, ◌&&◌, ◌==◌, if◌then◌else◌, ltb, ◌^◌,
  Memory,
}
use libcap_utils.Prelude.Int.{pos, ltb_ℤ}
use libcap_utils.Filter.{Filter, CapHeader, Range}
use libcap_utils.Filter.Core.{filter_core}

-- Drop the first range if its upper bound is behind the counter.
unfoldable pub prune : List Range → ℕ → List Range
prune [] counter = []
prune (r ∷ rest) counter =
    if ltb_ℤ (pos 0) r.upper && ltb_ℤ r.upper (pos counter) then rest else r ∷ rest

-- The exception for the first packet.
unfoldable pub start : Filter → CapHeader → Filter
start f head = if f.first then record f { frame_last_ts = head.ts; first = false } else f

-- The state that is stored after the decision.
unfoldable pub settle : Filter → CapHeader → Bool → Filter
unfolding prune
settle f head match = record f {
  frame_num = prune f.frame_num f.frame_counter;
  frame_counter = f.frame_counter + 1;
  frame_last_ts = if match then head.ts else f.frame_last_ts;
}

-- `index == 0 || filter_core(..)`, where an abort in `filter_core` is `none`.
unfoldable pub core_match : ℕ → Filter → CapHeader → Option Bool
core_match fuel f head =
    let core = filter_core fuel f head.payload head in if f.index == 0 then some true else core

-- `bpf_filter` is libpcap's: it takes the program, the packet and its two lengths.
module _ (bpf_filter : List ℕ → Memory → ℕ → ℕ → Bool) where
  unfoldable pub bpf_match : Option (List ℕ) → CapHeader → Bool
  bpf_match none head = true
  bpf_match (some program) head = bpf_filter program head.payload head.len head.caplen

  -- `none` is an abort in `filter_core`, or a counter that overflows, which C does not define.
  unfoldable pub filter_match : ℕ → Filter → CapHeader → Option (Bool × Filter)
  filter_match fuel f head =
      let g = start f head in
      elim (core_match fuel g head) [
        | none ↦ none
        | some core ↦
            let match = core && bpf_match g.bpf_insn head in
            if ltb (g.frame_counter + 1) (2 ^ 31) then some (match, settle g head match) else none
      ]

  -- A client's loop over the frames of a trace: the decision for each.
  unfoldable pub run : ℕ → Filter → List CapHeader → Option (List Bool)
  run fuel f [] = some []
  run fuel f (head ∷ rest) = elim (filter_match fuel f head) [
    | none ↦ none
    | some (match, g) ↦ elim (run fuel g rest) [
      | none ↦ none
      | some decisions ↦ some (match ∷ decisions)
    ]
  ]
