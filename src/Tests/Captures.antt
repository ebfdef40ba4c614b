-- ===== src/Tests/Captures.antt =====
-- The theorems on capmerge at concrete streams.
use libcap_utils.Prelude.{ℕ, ◌+◌, ◌≡◌, refl, some, List, [], ◌∷◌, length}
use mathlib.Core.List.{Perm}
use libcap_utils.Time.{timecmp}
use libcap_utils.Filter.{CapHeader}
use libcap_utils.Capmerge.{sort_loop}
use libcap_utils.Capmerge.Merge.{Source, merge_loop}
use libcap_utils.Capmerge.Smallest.{live}
use libcap_utils.Capmerge.Sorted.{Ascending, sort_loop-Ascending}

abbrev at_second : ℕ → ℕ → CapHeader
at_second sec len = record {
  nic = [];
  mampid = [];
  ts = record { tv_sec = sec; tv_psec = 0 };
  len = len;
  caplen = len;
  payload = λ i. 0;
}

-- Out of order, with a packet without a length.
abbrev buffer : List CapHeader
buffer = at_second 9 60 ∷ at_second 3 0 ∷ at_second 4 64 ∷ at_second 9 72 ∷ []

sort_loop-Ascending_example :
    (out : List CapHeader) × (sort_loop (length buffer + 1) buffer ≡ some out)
    × Perm out (live buffer)
    × Ascending out
unfolding live timecmp
sort_loop-Ascending_example = sort_loop-Ascending buffer (refl, (refl, (refl, tt)))

sorted_buffer : sort_loop 5 buffer ≡ some (at_second 4 64 ∷ at_second 9 60 ∷ at_second 9 72 ∷ [])
unfolding sort_loop
sorted_buffer = refl

-- A stream that has ended, and two with one packet each: the later packet is written first.
late_peek :
    merge_loop 10 ([] ∷ (at_second 5 60 ∷ []) ∷ (at_second 1 60 ∷ []) ∷ [])
    ≡ some (at_second 5 60 ∷ at_second 1 60 ∷ [])
unfolding merge_loop
late_peek = refl

-- Two streams, the second with a packet that holds more bytes than the packet had.
abbrev streams : List Source
streams =
    (at_second 3 60 ∷ at_second 7 60 ∷ []) ∷ (record (at_second 4 64) { caplen = 80 } ∷ []) ∷ []

merged_streams : merge_loop 6 streams ≡ some (at_second 3 60 ∷ at_second 4 64 ∷ at_second 7 60 ∷ [])
unfolding merge_loop
merged_streams = refl

-- A packet without captured bytes closes its stream, with the packets behind it.
closed_stream :
    merge_loop 10
      ((record (at_second 1 60) { caplen = 0 } ∷ at_second 2 60 ∷ []) ∷ (at_second 5 60 ∷ []) ∷ [])
    ≡ some (at_second 5 60 ∷ [])
unfolding merge_loop
closed_stream = refl
