-- ===== src/Filter/Gaps.antt =====
-- A filter on the time between frames alone, `--frame-max-dt` of src/createfilter.c, run over a trace.
use libcap_utils.Prelude.{◌+◌, ◌≡◌, ◌^◌, arith, Bool, none, List, [], ◌∷◌, leb, if◌then◌else◌}
use libcap_utils.Time.{Picotime, instant}
use libcap_utils.Filter.{Filter, CapHeader, all_of}
use libcap_utils.Filter.Criteria
use libcap_utils.Filter.Match.{start}

-- Only the time between frames is selected.
record IsGapFilter (f : Filter) : Type 0 where
  only : f.index ≡ 2 ^ 14
  all : f.mode ≡ all_of
  no_bpf : f.bpf_insn ≡ none
  no_ranges : f.frame_num ≡ []

-- A time that is no later than another one and the distance behind it.
abbrev pub is_near : Picotime → Picotime → Picotime → Bool
is_near max last t = leb (instant t) (instant last + instant max)

-- Each frame of a trace is compared with the last frame in front of it that was near.
abbrev pub chained : Picotime → Picotime → List CapHeader → List Bool
chained max last [] = []
chained max last (head ∷ rest) =
    let near = is_near max last head.ts in near ∷ chained max (if near then head.ts else last) rest

start-IsGapFilter : {f : Filter} (head : CapHeader) → IsGapFilter f → IsGapFilter (start f head)
unfolding start
start-IsGapFilter {f} head w = ground (arith, w.only, w.all, w.no_bpf, w.no_ranges)
