-- ===== src/Capmerge/Merged.antt =====
-- What the merging of src/tools/capmerge.c writes.
use libcap_utils.Prelude.{ℕ, ◌+◌, ◌<◌, ◌≡◌, ◌≢◌, true, some, List, map, length}
use mathlib.Core.List.{Mem, Perm}
use mathlib.Core.List.Perm
use libcap_utils.Time.{timecmp}
use libcap_utils.Filter.{CapHeader}
use libcap_utils.Capmerge.{last_time}
use libcap_utils.Capmerge.Merge.{Source, is_before, truncated, merge_loop}
use libcap_utils.Capmerge.Peeked.{packets_of, total}
use libcap_utils.Capmerge.Chosen.{Chosen}

-- Every packet has captured bytes, and is before the timestamp that the search begins with.
abbrev pub AllReadable : List Source → Type 0
AllReadable st =
    (p : CapHeader)
    → Mem p (packets_of st)
    → (p.caplen ≢ 0) × (is_before (timecmp p.ts last_time) ≡ true)

-- The loop on so much fuel, for streams that it is enough for.
unfoldable Merges : ℕ → Type 0
Merges fuel =
    (st : List Source)
    → AllReadable st
    → total st + length st < fuel
    → (out : List CapHeader) × (merge_loop fuel st ≡ some out)
      × Perm out (map truncated (packets_of st))
