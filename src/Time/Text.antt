-- ===== src/Time/Text.antt =====
-- `timepico_from_string` of src/picotime.c.
pub mod Fraction
use libcap_utils.Prelude.{
  ℕ, zero, suc, ◌+◌, ◌-◌, ◌*◌, ◌≤◌, ◌<◌, ◌^◌, ◌≡◌, refl, sym, ap, ◌∙◌, Bool, true, false, Option,
  none, some, List, [], ◌∷◌, ◌++◌, length, All, ◌==◌, ltb, if◌then◌else◌, u32, u64, arith,
}
use libcap_utils.Prelude.Int.{ℤ, pos, negsuc}
use libcap_utils.Text.{atoi, wrapped, is_digit}
use libcap_utils.Text.Numerals.{IsNumeral, digits_value, value}
use libcap_utils.Time.{Picotime}

-- The four formats, in the order in which they are tried: "%F %T", "%Y%m%d %T", "%y%m%d %T" and "%s".
pub data Format : Type 0 where
  iso compact short epoch : Format

-- The system's `strptime` for a format, with the seconds that `mktime` makes of what it has read and the
-- text behind it.
abbrev pub Dates : Type 0
Dates = Format → List ℕ → Option (ℕ × List ℕ)

abbrev pub or_else : Option (ℕ × List ℕ) → Option (ℕ × List ℕ) → Option (ℕ × List ℕ)
or_else none later = later
or_else (some first) later = some first

unfoldable pub find_date : Dates → List ℕ → Option (ℕ × List ℕ)
find_date dates input =
    or_else (dates iso input)
      (or_else (dates compact input) (or_else (dates short input) (dates epoch input)))

-- The loop that fills up to twelve digits, in `n` rounds.
unfoldable pub scale : ℕ → ℕ → ℕ
scale zero psec = psec
scale (suc n) psec = scale n (u64 (psec * 10))

abbrev pub dot : ℕ
dot = 46

-- The picoseconds of what follows the date; `strtoll` and `strlen` read the whole rest.
unfoldable pub fraction_psec : List ℕ → ℕ
unfolding scale
fraction_psec [] = 0
fraction_psec (c ∷ fraction) =
    if c == dot then scale (12 - length fraction) (wrapped (2 ^ 64) (atoi fraction)) else 0

-- What is returned, 0 or -1, and what is stored.
unfoldable pub timepico_from_string : Dates → List ℕ → Bool × Picotime
unfolding find_date fraction_psec
timepico_from_string dates input = elim (find_date dates input) [
  | none ↦ (false, record { tv_sec = 0; tv_psec = 0 })
  | some (sec, fraction) ↦ (true, record { tv_sec = u32 sec; tv_psec = fraction_psec fraction })
]
