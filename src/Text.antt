-- ===== src/Text.antt =====
-- The functions of the C library that src/createfilter.c reads numbers with, on C strings, which are
-- lists of characters. A number that does not fit an int is undefined there, and has no bound here.
pub mod Numerals
use Prim.Native.Char.{code}
use Prim.Native.String.{String}
use libcap_utils.Prelude.{
  ℕ, zero, suc, ◌+◌, ◌-◌, ◌*◌, ◌%◌, drop, get_or, Bool, true, false, Option, none, some, List, [],
  ◌∷◌, ◌==◌, leb, ltb, ◌&&◌, ◌||◌, if◌then◌else◌,
}
use libcap_utils.Prelude.Int.{ℤ, pos, negsuc}

-- `isdigit` and `isspace` in the C locale.
abbrev pub is_digit : ℕ → Bool
is_digit c = leb 48 c && leb c 57

abbrev pub is_space : ℕ → Bool
is_space c = c == 32 || leb 9 c && leb c 13

abbrev pub minus : ℕ
minus = 45

abbrev pub plus : ℕ
plus = 43

abbrev pub comma : ℕ
comma = 44

unfoldable pub skip_spaces : List ℕ → List ℕ
skip_spaces [] = []
skip_spaces (c ∷ s) = let rest = skip_spaces s in if is_space c then rest else c ∷ s

-- The digits at the start of a text are added to `n`; with the text behind them.
unfoldable pub scan_digits : ℕ → List ℕ → ℕ × List ℕ
scan_digits n [] = (n, [])
scan_digits n (c ∷ s) =
    let rest = scan_digits (n * 10 + (c - 48)) s in if is_digit c then rest else (n, c ∷ s)

-- -n
abbrev pub negated : ℕ → ℤ
negated zero = pos 0
negated (suc n) = negsuc n

-- A number wants a digit.
unfoldable pub scan_unsigned : List ℕ → Option (ℕ × List ℕ)
unfolding scan_digits
scan_unsigned [] = none
scan_unsigned (c ∷ s) = if is_digit c then some (scan_digits 0 (c ∷ s)) else none

abbrev pub with_sign : (ℕ → ℤ) → Option (ℕ × List ℕ) → Option (ℤ × List ℕ)
with_sign sign none = none
with_sign sign (some (n, rest)) = some (sign n, rest)

unfoldable pub scan_signed : List ℕ → Option (ℤ × List ℕ)
unfolding scan_unsigned
scan_signed [] = none
scan_signed (c ∷ s) =
    if c == minus
    then with_sign negated (scan_unsigned s)
    else if c == plus
    then with_sign pos (scan_unsigned s)
    else with_sign pos (scan_unsigned (c ∷ s))

-- The conversion `%d` of `sscanf`, with the text behind the number.
unfoldable pub scan_int : List ℕ → Option (ℤ × List ℕ)
unfolding scan_signed skip_spaces
scan_int s = scan_signed (skip_spaces s)

unfoldable pub atoi : List ℕ → ℤ
unfolding scan_int
atoi s = elim (scan_int s) [ none ↦ pos 0 | some (n, rest) ↦ n ]

-- A token of `strtok_r` is not empty.
unfoldable pub token_of : List ℕ → List (List ℕ) → List (List ℕ)
token_of [] tokens = tokens
token_of (c ∷ s) tokens = (c ∷ s) ∷ tokens

-- `strchr(s, c) != NULL`
abbrev pub has : ℕ → List ℕ → Bool
has c [] = false
has c (x ∷ xs) = x == c || has c xs

-- The text up to the first separator, and the tokens behind it.
unfoldable pub cut : ℕ → List ℕ → List ℕ × List (List ℕ)
unfolding token_of
cut sep [] = ([], [])
cut sep (c ∷ s) =
    let (front, tokens) = cut sep s in
    if c == sep then ([], token_of front tokens) else (c ∷ front, tokens)

-- The tokens of `strtok_r`: the parts between separators that are not empty.
unfoldable pub strtok : ℕ → List ℕ → List (List ℕ)
unfolding cut token_of
strtok sep s = let (front, tokens) = cut sep s in token_of front tokens

-- The characters of a literal.
abbrev pub codes : String → List ℕ
codes String.[] = []
codes (String.◌∷◌ c s) = code c ∷ codes s

abbrev pub to_lower : ℕ → ℕ
to_lower c = if leb 65 c && leb c 90 then c + 32 else c

-- `strcasecmp(a, b) == 0` in the C locale.
unfoldable pub strcasecmp_eq : List ℕ → List ℕ → Bool
strcasecmp_eq [] [] = true
strcasecmp_eq (x ∷ a) (y ∷ b) =
    let rest = strcasecmp_eq a b in if to_lower x == to_lower y then rest else false
strcasecmp_eq [] (y ∷ b) = false
strcasecmp_eq (x ∷ a) [] = false

-- The digits of base 16.
abbrev pub hex_digit : ℕ → Option ℕ
hex_digit c =
    if is_digit c
    then some (c - 48)
    else if leb 65 c && leb c 70
    then some (c - 55)
    else if leb 97 c && leb c 102
    then some (c - 87)
    else none

unfoldable pub hex_digits : ℕ → List ℕ → ℕ
hex_digits n [] = n
hex_digits n (c ∷ s) = elim (hex_digit c) [ none ↦ n | some d ↦ hex_digits (n * 16 + d) s ]

-- Whether a text begins with "0x", in either case.
abbrev pub has_hex_prefix : List ℕ → Bool
has_hex_prefix (c ∷ d ∷ s) = c == 48 && to_lower d == 120
has_hex_prefix _ = false

abbrev pub hex_unsigned : List ℕ → ℕ
hex_unsigned s = hex_digits 0 (if has_hex_prefix s then drop 2 s else s)

-- `strtol(s, NULL, 16)`
unfoldable pub strtol_hex : List ℕ → ℤ
unfolding hex_digits skip_spaces
strtol_hex s =
    let t = skip_spaces s in
    if get_or t 0 0 == minus
    then negated (hex_unsigned (drop 1 t))
    else if get_or t 0 0 == plus
    then pos (hex_unsigned (drop 1 t))
    else pos (hex_unsigned t)

-- A signed number that is stored to an unsigned type of this modulus.
abbrev pub wrapped : ℕ → ℤ → ℕ
wrapped modulus (pos n) = n % modulus
wrapped modulus (negsuc n) = modulus - 1 - n % modulus
