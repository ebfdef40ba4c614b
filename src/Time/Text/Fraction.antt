-- ===== src/Time/Text/Fraction.antt =====
-- The fraction of a second that `timepico_from_string` of src/picotime.c reads.
use libcap_utils.Prelude.{
  ℕ, zero, suc, ◌+◌, ◌-◌, ◌*◌, ◌%◌, ◌≤◌, ◌<◌, ◌^◌, ◌≡◌, refl, ◌∙◌, true, some, List, [], ◌∷◌,
  length, All, u32, u64, arith,
}
use libcap_utils.Text.{is_digit}
use libcap_utils.Text.Numerals.{IsNumeral, digits_value, value, atoi-numeral}
use libcap_utils.Time.{Picotime, IsNormal}
use libcap_utils.Time.Text.{Dates, find_date, scale, dot, fraction_psec, timepico_from_string}
use native.Mathlib.Nat.{pow-succ', mul_assoc, mul-le-mul_right, mul-le-mul_left}

-- Digits stand for less than the power of ten that has one digit more.
digits_value-lt :
    (n : ℕ) (s : List ℕ)
    → All (λ c. is_digit c ≡ true) s
    → digits_value n s < (n + 1) * 10 ^ length s
digits_value-lt n [] h = omega arith
digits_value-lt n (c ∷ s) h =
    let d = c - 48 in
    let less : d ≤ 9 = ground (arith, h.0) in
    let power = 10 ^ length s in
    let shorter = digits_value-lt (n * 10 + d) s h.1 in
    let bound = mul-le-mul_right {m = n * 10 + d + 1} {n = (n + 1) * 10} power (omega arith) in
    let grouped = mul_assoc (n + 1) 10 power in
    rw (pow-succ' 10 (length s)) (omega (arith, shorter, bound, grouped))

ten_pow-pos : (n : ℕ) → 1 ≤ 10 ^ n
ten_pow-pos zero = omega arith
ten_pow-pos (suc n) = rw (pow-succ' 10 n) (omega (arith, ten_pow-pos n))

scale-power : (n psec : ℕ) → psec * 10 ^ n < 2 ^ 64 → scale n psec ≡ psec * 10 ^ n
unfolding scale
scale-power zero psec h = omega arith
scale-power (suc n) psec h =
    let power = 10 ^ n in
    let grouped = mul_assoc psec 10 power in
    let whole : psec * 10 * power ≡ psec * 10 ^ suc n = rw (pow-succ' 10 n) grouped in
    let some_power = mul-le-mul_left {m = 1} {n = power} (psec * 10) (ten_pow-pos n) in
    let fits : u64 (psec * 10) ≡ psec * 10 = omega (arith, whole, some_power) in
    rw fits (scale-power n (psec * 10) (omega (arith, whole)) ∙ whole)

-- The powers that make up twelve digits.
pow-split : (k n : ℕ) → 10 ^ k * 10 ^ n ≡ 10 ^ (k + n)
pow-split zero n = let e : 0 + n ≡ n = omega arith in rw e (omega arith)
pow-split (suc k) n =
    let e : suc k + n ≡ suc (k + n) = omega arith in
    rw (e, pow-succ' 10 k, pow-succ' 10 (k + n), ← pow-split k n) (mul_assoc 10 (10 ^ k) (10 ^ n))

-- Behind a date that is found, a dot and up to twelve digits are the decimal fraction of a second: the
-- picoseconds are the number with as many zeroes behind it as make up twelve digits, and the timestamp
-- is normal.
pub timepico_from_string-fraction :
    (dates : Dates) (input s : List ℕ) (sec : ℕ)
    → find_date dates input ≡ some (sec, dot ∷ s)
    → IsNumeral s
    → length s ≤ 12
    → let t : Picotime = record { tv_sec = u32 sec; tv_psec = value s * 10 ^ (12 - length s) } in
      (timepico_from_string dates input ≡ (true, t)) × IsNormal t
unfolding timepico_from_string fraction_psec
timepico_from_string-fraction dates input s sec e numeral short =
    let zeroes = 10 ^ (12 - length s) in
    let less = digits_value-lt 0 s numeral.1 in
    let made_up : length s + (12 - length s) ≡ 12 = omega arith in
    let twelve : 10 ^ length s * zeroes ≡ 10 ^ 12 =
      rw (pow-split (length s) (12 - length s), made_up) refl in
    let bound =
      mul-le-mul_right {m = value s + 1} {n = 10 ^ length s} zeroes (omega (arith, less)) in
    let positive = ten_pow-pos (12 - length s) in
    let fits : value s * zeroes < 10 ^ 12 = omega (arith, bound, twelve, positive) in
    let grows = mul-le-mul_left {m = 1} {n = zeroes} (value s) positive in
    let small : value s % 2 ^ 64 ≡ value s = omega (arith, fits, grows) in
    let scaled = scale-power (12 - length s) (value s) (omega (arith, fits)) in
    (
      rw (timepico_from_string, e, atoi-numeral s numeral, small, scaled) refl,
      record { sec_fits = omega arith; psec_fits = fits },
    )
