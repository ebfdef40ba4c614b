-- ===== src/Filter/Ranges/Laws.antt =====
-- Each form that the comment on `parse_frame_range` lists is read as the range that it says.
use libcap_utils.Prelude.{
  ℕ, zero, suc, ◌<◌, ◌^◌, ◌≡◌, ◌≢◌, refl, ap, ◌∙◌, true, false, some, List, [], ◌∷◌, ◌++◌, ◌==◌,
  All, All-append, arith, map,
}
use libcap_utils.Prelude.Int.{ℤ, pos, negsuc}
use libcap_utils.Text.{scan_int, minus, comma, is_digit, negated, has}
use libcap_utils.Text.Numerals.{
  IsNumeral, value, scan_int-numeral, scan_int-negative, joined, Lacks, strtok-joined, atoi-numeral,
}
use libcap_utils.Filter.{Range}
use libcap_utils.Filter.Ranges.{
  to_int, one_bound, two_bounds, range_of, ranges_of, store_ranges, parse_frame_range,
}
use mathlib.Core.List.{append-nil}

-- FRAME, LOWER-UPPER, -UPPER and LOWER-, with numerals.
pub data Form : Type 0 where
  single : List ℕ → Form
  between : List ℕ → List ℕ → Form
  up_to : List ℕ → Form
  onwards : List ℕ → Form

-- A numeral whose value fits an int.
abbrev pub IsBound : List ℕ → Type 0
IsBound s = IsNumeral s × (value s < 2 ^ 31)

-- The numerals are such, and the upper bound of `-UPPER` is not 0.
abbrev pub IsForm : Form → Type 0
IsForm (single s) = IsBound s
IsForm (between s t) = IsBound s × IsBound t
IsForm (up_to t) = IsBound t × (value t ≢ 0)
IsForm (onwards s) = IsBound s

abbrev pub text_of : Form → List ℕ
text_of (single s) = s
text_of (between s t) = s ++ minus ∷ t
text_of (up_to t) = minus ∷ t
text_of (onwards s) = s ++ minus ∷ []

-- A bound that is not given is -1.
abbrev pub meaning : Form → Range
meaning (single s) = record { lower = pos (value s); upper = pos (value s) }
meaning (between s t) = record { lower = pos (value s); upper = pos (value t) }
meaning (up_to t) = record { lower = negsuc 0; upper = pos (value t) }
meaning (onwards s) = record { lower = pos (value s); upper = negsuc 0 }

has-digits : (s : List ℕ) → All (λ c. is_digit c ≡ true) s → has minus s ≡ false
has-digits [] h = refl
has-digits (c ∷ s) h =
    let other : (c == minus) ≡ false = ground (arith, h.0) in rw (other, has-digits s h.1) refl

has-append : (c : ℕ) (s t : List ℕ) → has c (s ++ c ∷ t) ≡ true
has-append c [] t = ground arith
has-append c (x ∷ s) t = rw (has-append c s t) (ground arith)

-- An int is stored as it is.
to_int-pos : (n : ℕ) → n < 2 ^ 31 → to_int (pos n) ≡ pos n
unfolding to_int
to_int-pos n h = ground arith

to_int-negated : (n : ℕ) → n < 2 ^ 31 → to_int (negated n) ≡ negated n
unfolding to_int
to_int-negated zero h = refl
to_int-negated (suc n) h = ground arith

one_bound-negated :
    (n : ℕ)
    → n < 2 ^ 31
    → n ≢ 0
    → one_bound (negated n) ≡ record { lower = negsuc 0; upper = pos n }
unfolding one_bound
one_bound-negated zero b h = absurd (h refl)
one_bound-negated (suc n) b h = rw (to_int-pos (suc n) b) refl

-- A bound behind the '-', and none.
scanned_bounds :
    (token : List ℕ) (lower : ℤ) (rest : List ℕ)
    → has minus token ≡ true
    → scan_int token ≡ some (lower, rest)
    → range_of token ≡ some (two_bounds (to_int lower) rest)
unfolding range_of
scanned_bounds token lower rest h e = rw (range_of, h, e) refl

two_bounds-numeral :
    (lower : ℤ) (t : List ℕ)
    → IsBound t
    → two_bounds lower (minus ∷ t) ≡ record { lower = lower; upper = pos (value t) }
unfolding two_bounds
two_bounds-numeral lower t h =
    let scanned = rw (append-nil t) at (scan_int-numeral t [] h.0 tt) in
    rw (two_bounds, scanned, to_int-pos (value t) h.1) refl

range_of-text : (form : Form) → IsForm form → range_of (text_of form) ≡ some (meaning form)
unfolding range_of two_bounds one_bound scan_int
range_of-text (single s) h =
    rw (has-digits s h.0.1, atoi-numeral s h.0, to_int-pos (value s) h.1) refl
range_of-text (between s t) h =
    scanned_bounds (s ++ minus ∷ t) (pos (value s)) (minus ∷ t) (has-append minus s t)
      (scan_int-numeral s (minus ∷ t) h.0.0 refl)
    ∙ ap some (
        two_bounds-numeral (to_int (pos (value s))) t h.1
        ∙ ap (λ b. record { lower = b; upper = pos (value t) }) (to_int-pos (value s) h.0.1))
range_of-text (up_to t) h =
    let scanned = rw (append-nil t) at (scan_int-negative t [] h.0.0 tt) in
    scanned_bounds (minus ∷ t) (negated (value t)) [] refl scanned
    ∙ ap some
        (ap one_bound (to_int-negated (value t) h.0.1) ∙ one_bound-negated (value t) h.0.1 h.1)
range_of-text (onwards s) h =
    scanned_bounds (s ++ minus ∷ []) (pos (value s)) (minus ∷ []) (has-append minus s [])
      (scan_int-numeral s (minus ∷ []) h.0 refl)
    ∙ ap (λ b. some (one_bound b)) (to_int-pos (value s) h.1)

ranges_of-texts :
    (forms : List Form) → All IsForm forms → ranges_of (map text_of forms) ≡ map meaning forms
unfolding ranges_of
ranges_of-texts [] h = refl
ranges_of-texts (form ∷ forms) h =
    rw (ranges_of, range_of-text form h.0)
      (ap (λ rs. meaning form ∷ rs) (ranges_of-texts forms h.1))

digits-Lacks : (s : List ℕ) → All (λ c. is_digit c ≡ true) s → Lacks comma s
digits-Lacks [] h = tt
digits-Lacks (c ∷ s) h = (ground (arith, h.0), digits-Lacks s h.1)

append-ne-nil : (s t : List ℕ) (c : ℕ) → s ++ c ∷ t ≢ []
append-ne-nil [] t c h = cc
append-ne-nil (x ∷ s) t c h = cc

text_of-token : (form : Form) → IsForm form → (text_of form ≢ []) × Lacks comma (text_of form)
text_of-token (single s) h = (h.0.0, digits-Lacks s h.0.1)
text_of-token (between s t) h = (
  append-ne-nil s t minus,
  All-append (λ c. (c == comma) ≡ false) s (minus ∷ t) (digits-Lacks s h.0.0.1)
      (refl, digits-Lacks t h.1.0.1),
)
text_of-token (up_to t) h = ((λ e. cc), (refl, digits-Lacks t h.0.0.1))
text_of-token (onwards s) h = (
  append-ne-nil s [] minus,
  All-append (λ c. (c == comma) ≡ false) s (minus ∷ []) (digits-Lacks s h.0.1) (refl, tt),
)

texts_are_tokens :
    (forms : List Form) → All IsForm forms → All (λ p. (p ≢ []) × Lacks comma p) (map text_of forms)
texts_are_tokens [] h = tt
texts_are_tokens (form ∷ forms) h = (text_of-token form h.0, texts_are_tokens forms h.1)

-- The forms of a frame range, at least one and joined by commas, with numerals below 2 ^ 31, are read as the ranges that they
-- stand for, in their order, whatever ranges the filter had.
pub parse_frame_range-forms :
    (form : Form) (forms : List Form) (old : List Range)
    → All IsForm (form ∷ forms)
    → parse_frame_range (joined comma (map text_of (form ∷ forms))) old ≡ map meaning (form ∷ forms)
unfolding parse_frame_range store_ranges
parse_frame_range-forms form forms old h =
    rw
      (
        strtok-joined comma (map text_of (form ∷ forms)) (texts_are_tokens (form ∷ forms) h),
        ranges_of-texts (form ∷ forms) h,
      )
      refl
