-- ===== src/Capmerge.antt =====
-- The sorting of src/tools/capmerge.c: packets in a buffer are written in the order of their
-- timestamps. The buffer is the list of its packets, and a pointer into it an index.
pub mod Smallest
pub mod Sorted
pub mod Merge
pub mod Peeked
pub mod Chosen
pub mod Merged
use libcap_utils.Prelude.{
  ℕ, zero, suc, ◌+◌, ◌-◌, ◌^◌, Bool, true, false, ◌&&◌, Option, none, some, List, [], ◌∷◌, ltb,
  if◌then◌else◌, ◌>>=◌, get_elem?,
}
use libcap_utils.Time.{Picotime, Comparison, before, same, after, timecmp}
use libcap_utils.Filter.{CapHeader}

-- `timepico cur = {-1, -1}`
abbrev pub last_time : Picotime
last_time = record { tv_sec = 2 ^ 32 - 1; tv_psec = 2 ^ 64 - 1 }

abbrev pub is_after : Comparison → Bool
is_after before = false
is_after same = false
is_after after = true

-- "recalculate begin pointer". At the end of the buffer the code reads a length behind it, and the
-- pointer is not used then.
unfoldable pub skip : List CapHeader → List CapHeader
skip [] = []
skip (cp ∷ packets) = let rest = skip packets in if ltb 0 cp.len then cp ∷ packets else rest

-- "find smallest packet": the packets from `ptr` on, its index, and `cur` and `pkt` so far.
unfoldable pub find_smallest : List CapHeader → ℕ → Picotime → Option ℕ → Option ℕ
unfolding timecmp
find_smallest [] i cur pkt = pkt
find_smallest (cp ∷ packets) i cur pkt =
    let smaller : Bool = ltb 0 cp.len && is_after (timecmp cur cp.ts) in
    find_smallest packets (i + 1) (if smaller then cp.ts else cur) (if smaller then some i else pkt)

-- `pkt->len = 0`
unfoldable pub mark : List CapHeader → ℕ → List CapHeader
mark [] i = []
mark (cp ∷ packets) zero = record cp { len = 0 } ∷ packets
mark (cp ∷ packets) (suc i) = cp ∷ mark packets i

-- The packets that the loop writes. Out of fuel there is no result.
unfoldable pub sort_loop : ℕ → List CapHeader → Option (List CapHeader)
unfolding skip find_smallest mark
sort_loop zero packets = none
sort_loop (suc fuel) packets =
    let begin = skip packets in
    elim (find_smallest begin 0 last_time none) [
      | none ↦ some []
      | some i ↦ do
        pkt ← get_elem? begin i
        written ← sort_loop fuel (mark begin i)
        some (pkt ∷ written)
    ]
