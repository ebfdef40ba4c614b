-- ===== src/Text/Numerals.antt =====
-- Reading decimal numerals, and texts that are joined by a separator, against what they stand for.
use mathlib.Core.List.{append-nil}
use libcap_utils.Prelude.{
  ==_refl, ℕ, ◌+◌, ◌-◌, ◌*◌, ◌≡◌, ◌≢◌, refl, ap, ◌∙◌, true, false, some, List, [], ◌∷◌, ◌++◌, ◌==◌,
  All, arith,
}
use libcap_utils.Prelude.Int.{pos}
use libcap_utils.Text.{
  is_digit, is_space, minus, plus, scan_digits, negated, scan_unsigned, with_sign, scan_int, atoi,
  cut, token_of, strtok,
}

-- A numeral is a digit and more digits.
abbrev pub IsNumeral : List ℕ → Type 0
IsNumeral s = (s ≢ []) × All (λ c. is_digit c ≡ true) s

-- What digits stand for, behind digits that stand for `n`.
abbrev pub digits_value : ℕ → List ℕ → ℕ
digits_value n [] = n
digits_value n (c ∷ s) = digits_value (n * 10 + (c - 48)) s

abbrev pub value : List ℕ → ℕ
value s = digits_value 0 s

-- A text that does not begin with a digit.
abbrev pub Stops : List ℕ → Type 0
Stops [] = Unit {0}
Stops (c ∷ s) = is_digit c ≡ false

scan_digits-numeral :
    (n : ℕ) (s rest : List ℕ)
    → All (λ c. is_digit c ≡ true) s
    → Stops rest
    → scan_digits n (s ++ rest) ≡ (digits_value n s, rest)
unfolding scan_digits
scan_digits-numeral n [] [] digits stops = refl
scan_digits-numeral n [] (c ∷ rest) digits stops = rw stops refl
scan_digits-numeral n (c ∷ s) rest digits stops =
    rw (digits.0) (scan_digits-numeral (n * 10 + (c - 48)) s rest digits.1 stops)

scan_unsigned-digit :
    (c : ℕ) (s : List ℕ) → is_digit c ≡ true → scan_unsigned (c ∷ s) ≡ some (scan_digits 0 (c ∷ s))
unfolding scan_unsigned
scan_unsigned-digit c s h = rw h refl

scan_unsigned-numeral :
    (s rest : List ℕ) → IsNumeral s → Stops rest → scan_unsigned (s ++ rest) ≡ some (value s, rest)
unfolding scan_unsigned
scan_unsigned-numeral [] rest numeral stops = absurd (numeral.0 refl)
scan_unsigned-numeral (c ∷ s) rest numeral stops =
    scan_unsigned-digit c (s ++ rest) numeral.1.0
    ∙ ap some (scan_digits-numeral 0 (c ∷ s) rest numeral.1 stops)

scan_int-digit :
    (c : ℕ) (s : List ℕ)
    → is_digit c ≡ true
    → scan_int (c ∷ s) ≡ with_sign pos (scan_unsigned (c ∷ s))
unfolding scan_int
scan_int-digit c s h =
    let no_space : is_space c ≡ false = ground (arith, h) in
    let no_minus : (c == minus) ≡ false = ground (arith, h) in
    let no_plus : (c == plus) ≡ false = ground (arith, h) in rw (no_space, no_minus, no_plus) refl

pub scan_int-numeral :
    (s rest : List ℕ) → IsNumeral s → Stops rest → scan_int (s ++ rest) ≡ some (pos (value s), rest)
scan_int-numeral [] rest numeral stops = absurd (numeral.0 refl)
scan_int-numeral (c ∷ s) rest numeral stops =
    scan_int-digit c (s ++ rest) numeral.1.0
    ∙ ap (with_sign pos) (scan_unsigned-numeral (c ∷ s) rest numeral stops)

-- A numeral behind a minus sign.
pub scan_int-negative :
    (s rest : List ℕ)
    → IsNumeral s
    → Stops rest
    → scan_int (minus ∷ s ++ rest) ≡ some (negated (value s), rest)
unfolding scan_int
scan_int-negative s rest numeral stops =
    ap (with_sign negated) (scan_unsigned-numeral s rest numeral stops)

pub atoi-numeral : (s : List ℕ) → IsNumeral s → atoi s ≡ pos (value s)
unfolding atoi
atoi-numeral s h =
    let scanned = rw (append-nil s) at (scan_int-numeral s [] h tt) in rw (atoi, scanned) refl

abbrev pub Lacks : ℕ → List ℕ → Type 0
Lacks sep s = All (λ c. (c == sep) ≡ false) s

-- Texts with a separator between each two.
unfoldable pub joined : ℕ → List (List ℕ) → List ℕ
joined sep [] = []
joined sep (p ∷ []) = p
joined sep (p ∷ q ∷ ps) = p ++ sep ∷ joined sep (q ∷ ps)

cut_last : (sep : ℕ) (p : List ℕ) → Lacks sep p → cut sep p ≡ (p, [])
unfolding cut
cut_last sep [] h = refl
cut_last sep (c ∷ p) h = rw (cut_last sep p h.1, h.0) refl

cut_front : (sep : ℕ) (p s : List ℕ) → Lacks sep p → cut sep (p ++ sep ∷ s) ≡ (p, strtok sep s)
unfolding cut strtok
cut_front sep [] s h = rw (==_refl sep) refl
cut_front sep (c ∷ p) s h = rw (cut_front sep p s h.1, h.0) refl

token_of-ne : (p : List ℕ) (ps : List (List ℕ)) → p ≢ [] → token_of p ps ≡ p ∷ ps
unfolding token_of
token_of-ne [] ps h = absurd (h refl)
token_of-ne (c ∷ p) ps h = refl

-- The tokens of texts that are not empty and hold no separator, joined by it, are the texts.
pub strtok-joined :
    (sep : ℕ) (ps : List (List ℕ))
    → All (λ p. (p ≢ []) × Lacks sep p) ps
    → strtok sep (joined sep ps) ≡ ps
unfolding strtok joined
strtok-joined sep [] h = refl
strtok-joined sep (p ∷ []) h = rw (cut_last sep p h.0.1) (token_of-ne p [] h.0.0)
strtok-joined sep (p ∷ q ∷ ps) h =
    rw (cut_front sep p (joined sep (q ∷ ps)) h.0.1, strtok-joined sep (q ∷ ps) h.1)
      (token_of-ne p (q ∷ ps) h.0.0)
