-- ===== src/Filter/Ranges.antt =====
-- `parse_frame_range` of src/createfilter.c: the ranges of `--frame-num`.
pub mod Laws
pub mod Run
use libcap_utils.Prelude.{
  ℕ, suc, Option, none, some, List, [], ◌∷◌, ◌==◌, if◌then◌else◌, ltb, ◌^◌, ◌-◌, ◌%◌,
}
use libcap_utils.Prelude.Int.{ℤ, pos, negsuc}
use libcap_utils.Text.{scan_int, atoi, strtok, minus, comma, has}
use libcap_utils.Filter.{Range}

-- A number that is stored to an int. A number that does not fit has no defined conversion in the C
-- standard; as in glibc it is cut to the range of a long, and the low 32 bits of that are kept.
unfoldable pub to_int : ℤ → ℤ
to_int (pos n) =
    let low = (if ltb n (2 ^ 63) then n else 2 ^ 63 - 1) % 2 ^ 32 in
    if ltb low (2 ^ 31) then pos low else negsuc (2 ^ 32 - 1 - low)
to_int (negsuc n) =
    let low = (if ltb n (2 ^ 63) then n else 2 ^ 63 - 1) % 2 ^ 32 in
    if ltb low (2 ^ 31) then negsuc low else pos (2 ^ 32 - 1 - low)

-- One number: a negative one is an upper bound. The negation of the least int wraps around.
unfoldable pub one_bound : ℤ → Range
unfolding to_int
one_bound (pos n) = record { lower = pos n; upper = negsuc 0 }
one_bound (negsuc n) = record { lower = negsuc 0; upper = to_int (pos (suc n)) }

-- What `sscanf` finds behind the first number: the literal '-' and a second number, or not.
unfoldable pub two_bounds : ℤ → List ℕ → Range
unfolding one_bound to_int
two_bounds lower [] = one_bound lower
two_bounds lower (c ∷ rest) =
    if c == minus
    then elim (scan_int rest) [
      | none ↦ one_bound lower
      | some (upper, _) ↦ record { lower = lower; upper = to_int upper }
    ]
    else one_bound lower

-- One token; a bad range is skipped. The token is not empty and has a '-' where it is scanned, so
-- `sscanf` does not come to its end before the first number.
unfoldable pub range_of : List ℕ → Option Range
unfolding two_bounds to_int
range_of token =
    if has minus token
    then elim (scan_int token) [
      | none ↦ none
      | some (lower, rest) ↦ some (two_bounds (to_int lower) rest)
    ]
    else some (record { lower = to_int (atoi token); upper = to_int (atoi token) })

unfoldable pub ranges_of : List (List ℕ) → List Range
unfolding range_of
ranges_of [] = []
ranges_of (token ∷ tokens) = elim (range_of token) [
  | none ↦ ranges_of tokens
  | some r ↦ r ∷ ranges_of tokens
]

-- The first range is stored to the filter, and without one the filter keeps its ranges.
unfoldable pub store_ranges : List Range → List Range → List Range
store_ranges [] old = old
store_ranges (r ∷ rs) old = r ∷ rs

-- The ranges of a filter that had the ranges `old`.
unfoldable pub parse_frame_range : List ℕ → List Range → List Range
unfolding ranges_of store_ranges
parse_frame_range arg old = store_ranges (ranges_of (strtok comma arg)) old
