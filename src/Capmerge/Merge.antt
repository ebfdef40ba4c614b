-- ===== src/Capmerge/Merge.antt =====
-- The loop of src/tools/capmerge.c that merges streams. They are capture files, each the list of the
-- packets in it from its read position on.
use libcap_utils.Prelude.{
  ℕ, zero, suc, ◌+◌, Bool, true, false, Option, none, some, List, [], ◌∷◌, length, if◌then◌else◌,
  ◌>>=◌, min, ◌==◌,
}
use libcap_utils.Time.{Picotime, Comparison, before, same, after, timecmp}
use libcap_utils.Filter.{CapHeader}
use libcap_utils.Capmerge.{last_time}

abbrev pub Source : Type 0
Source = List CapHeader

-- The last stream, and those in front of it.
abbrev pub last_source : Source → List Source → List Source × Source
last_source s [] = ([], s)
last_source s (r ∷ rest) = let (front, last) = last_source r rest in (s ∷ front, last)

-- `stream_peek` of one stream: it gives the first packet. It fails where the stream has ended, and at a
-- packet with no captured bytes.
unfoldable pub peek : Source → Option CapHeader
peek [] = none
peek (cp ∷ packets) = if cp.caplen == 0 then none else some cp

-- "take a peek at all open streams", for as many as there are at most: what is at the front of each,
-- and the streams. A stream whose peek fails is closed, with all that is left in it, and the last one
-- takes its place, without a peek at it.
unfoldable pub peek_all : ℕ → List Source → List (Option CapHeader × Source)
unfolding peek
peek_all zero st = []
peek_all (suc n) [] = []
peek_all (suc n) (s ∷ []) = elim (peek s) [ none ↦ [] | some cp ↦ (some cp, s) ∷ [] ]
peek_all (suc n) (s ∷ (r ∷ st)) = elim (peek s) [
  | none ↦ let (front, last) = last_source r st in (none, last) ∷ peek_all n front
  | some cp ↦ (some cp, s) ∷ peek_all n (r ∷ st)
]

abbrev pub is_before : Comparison → Bool
is_before before = true
is_before same = false
is_before after = false

-- `pkt[i] && timecmp(&pkt[i]->ts, &cur) < 0`
unfoldable pub is_older : Option CapHeader → Picotime → Bool
unfolding timecmp
is_older none cur = false
is_older (some cp) cur = is_before (timecmp cp.ts cur)

abbrev pub time_of : Option CapHeader → Picotime → Picotime
time_of none cur = cur
time_of (some cp) cur = cp.ts

-- "find newest packet": the peeked from `i` on, with `cur` and `oldest` so far.
unfoldable pub find_oldest : List (Option CapHeader × Source) → ℕ → Picotime → Option ℕ → Option ℕ
unfolding is_older
find_oldest [] i cur oldest = oldest
find_oldest ((pkt, s) ∷ peeked) i cur oldest =
    let older = is_older pkt cur in
    find_oldest peeked (i + 1) (if older then time_of pkt cur else cur)
      (if older then some i else oldest)

-- `stream_read` of the stream at an index: the packet, and the streams.
unfoldable pub read_source : List Source → ℕ → Option (CapHeader × List Source)
read_source [] i = none
read_source ([] ∷ st) zero = none
read_source ((cp ∷ packets) ∷ st) zero = some (cp, packets ∷ st)
read_source (s ∷ st) (suc i) = do got ← read_source st i; some (got.0, s ∷ got.1)

-- "truncate when caplen > len"
abbrev pub truncated : CapHeader → CapHeader
truncated cp = record cp { caplen = min cp.caplen cp.len }

abbrev pub sources : List (Option CapHeader × Source) → List Source
sources [] = []
sources ((pkt, s) ∷ peeked) = s ∷ sources peeked

-- "read packets": those that are written. Out of fuel there is no result.
unfoldable pub merge_loop : ℕ → List Source → Option (List CapHeader)
unfolding peek_all find_oldest read_source
merge_loop zero st = none
merge_loop (suc fuel) [] = some []
merge_loop (suc fuel) (s ∷ st) =
    let peeked = peek_all (length (s ∷ st)) (s ∷ st) in
    elim (find_oldest peeked 0 last_time none) [
      | none ↦ merge_loop fuel (sources peeked)
      | some i ↦ do
        got ← read_source (sources peeked) i
        written ← merge_loop fuel got.1
        some (truncated got.0 ∷ written)
    ]
