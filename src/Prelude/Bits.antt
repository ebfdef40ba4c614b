-- ===== src/Prelude/Bits.antt =====
-- Facts about `bit_and` and `bit_or` at variables, from the recursion on binary digits that the
-- native operations stand for.
use Prim.Native.Nat.{ℕ, zero, suc, ◌+◌, ◌*◌, ◌/◌, ◌%◌, ◌^◌, ◌≤◌, ◌<◌, min, max}
use Prim.Native.Nat.{bit_and, bit_or, digits, bitwise, bit_and-bitwise, bit_or-bitwise}
use Prim.Native.Nat.{bit_xor, bit_xor-bitwise, differ}
use mathlib.Core.Path.{◌≡◌, refl, ap, ap₂, sym, ◌∙◌}
use native.Mathlib.Nat.{le_refl, pow-suc, pow-succ', div-div-eq-div-mul}
use mathlib.Core.Logic.{◌≢◌}
use native.Mathlib.Numerals.{add-one}
use native.Mathlib.Omega.{arith}
use native.Mathlib.Decide.{dec_le}

-- `digits` on fuel, with what an operation does to the rest of a word when the other one is 0, and
-- to two digits.
module _ (rest : ℕ → ℕ) (digit : ℕ → ℕ → ℕ) where
  one_more : (n v w : ℕ) → v ≤ n → digits rest digit (suc n) v w ≡ digits rest digit n v w
  one_more n zero w h = from_zero n w
    where
      from_zero : (n w : ℕ) → digits rest digit (suc n) 0 w ≡ digits rest digit n 0 w
      from_zero zero w = refl
      from_zero (suc n) w = refl
  one_more zero (suc v) w h = absurd (ground arith)
  one_more (suc n) (suc v) w h = rw (one_more n (suc v / 2) (w / 2) (ground arith))

  -- As many rounds as the word itself are enough.
  trim : (n v w : ℕ) → v ≤ n → digits rest digit n v w ≡ digits rest digit v v w
  trim zero zero w h = refl
  trim zero (suc v) w h = absurd (ground arith)
  trim (suc n) v w h = elim (dec_le v n) [
    | yes less ↦ one_more n v w less ∙ trim n v w less
    | no more ↦ let e : v ≡ suc n = omega (arith, more) in rw e refl
  ]

  lowest_digit :
      (v w : ℕ)
      → bitwise rest digit (suc v) w
        ≡ digit (suc v % 2) (w % 2) + 2 * bitwise rest digit (suc v / 2) (w / 2)
  lowest_digit v w =
      let shorter = trim v (suc v / 2) (w / 2) (omega arith) in omega (arith, shorter)

pub bit_or_split : (v w : ℕ) → bit_or v w ≡ max (v % 2) (w % 2) + 2 * bit_or (v / 2) (w / 2)
bit_or_split zero w = simp bit_or-bitwise (omega arith)
bit_or_split (suc v) w = simp bit_or-bitwise (lowest_digit (λ t. t) max v w)

pub bit_and_split : (v w : ℕ) → bit_and v w ≡ min (v % 2) (w % 2) + 2 * bit_and (v / 2) (w / 2)
bit_and_split zero w = simp bit_and-bitwise (omega arith)
bit_and_split (suc v) w = simp bit_and-bitwise (lowest_digit (λ _. 0) min v w)

zero-bit_or : (b : ℕ) → bit_or 0 b ≡ b
zero-bit_or b = simp bit_or-bitwise

zero-bit_and : (b : ℕ) → bit_and 0 b ≡ 0
zero-bit_and b = simp bit_and-bitwise

double_shift : (k q : ℕ) → 2 * (q * 2 ^ k) ≡ q * 2 ^ suc k
double_shift k q = let twice = ap (λ (p : ℕ). q * p) (pow-suc 2 k) in omega (arith, twice)

pub pow-add_one : (k : ℕ) → 2 ^ (k + 1) ≡ 2 * 2 ^ k
pow-add_one k = rw add-one (pow-succ' 2 k)

pub pow-pos : (k : ℕ) → 0 < 2 ^ k
pow-pos zero = omega arith
pow-pos (suc k) = omega (arith, pow-succ' 2 k, pow-pos k)

-- `m | (b << k)` is a sum when `m` fits `k` bits.
pub bit_or-shifted : (k m b : ℕ) → m < 2 ^ k → bit_or m (b * 2 ^ k) ≡ m + b * 2 ^ k
bit_or-shifted zero zero b h = rw zero-bit_or (omega arith)
bit_or-shifted zero (suc m) b h = absurd (omega arith)
bit_or-shifted (suc k) m b h = ground (
  arith,
  pow-suc 2 k,
  bit_or_split m (b * 2 ^ suc k),
  double_shift k b,
  bit_or-shifted k (m / 2) b,
)

none_left : (bound v : ℕ) → v ≤ bound → bit_and v 0 ≡ 0
none_left bound zero h = zero-bit_and 0
none_left (suc bound) (suc v) h =
    let half = none_left bound (suc v / 2) (ground arith) in
    ground (arith, half, bit_and_split (suc v) 0)
none_left zero (suc v) h = absurd (ground arith)

pub bit_and-zero : (v : ℕ) → bit_and v 0 ≡ 0
bit_and-zero v = none_left v v (omega arith)

-- `x & (1 << k)` is the bit `k` of `x`, in its place.
pub bit_and-pow : (k x : ℕ) → bit_and x (2 ^ k) ≡ x / 2 ^ k % 2 * 2 ^ k
bit_and-pow zero x = omega (arith, bit_and_split x 1, bit_and-zero (x / 2))
bit_and-pow (suc k) x = ground (
  arith,
  pow-suc 2 k,
  bit_and_split x (2 ^ suc k),
  pow-succ' 2 k,
  div-div-eq-div-mul x 2 (2 ^ k),
  double_shift k (x / 2 / 2 ^ k % 2),
  bit_and-pow k (x / 2),
)

-- Masking with all ones of a byte changes no byte.
bit_and-le_fuel : (n a b : ℕ) → a ≤ n → bit_and a b ≤ a
bit_and-le_fuel n zero b h = omega (arith, zero-bit_and b)
bit_and-le_fuel zero (suc a) b h = absurd (omega arith)
bit_and-le_fuel (suc n) (suc a) b h =
    omega (arith, bit_and_split (suc a) b, bit_and-le_fuel n (suc a / 2) (b / 2) (omega arith))

pub bit_and-le : (a b : ℕ) → bit_and a b ≤ a
bit_and-le a b = bit_and-le_fuel a a b (le_refl a)

-- `x | (1 << k)` sets the bit `k`, and changes no other.
pub bit_or-pow_self : (k x : ℕ) → bit_or x (2 ^ k) / 2 ^ k % 2 ≡ 1
bit_or-pow_self zero x = omega (arith, bit_or_split x 1)
bit_or-pow_self (suc k) x = ground (
  arith,
  pow-succ' 2 k,
  bit_or_split x (2 ^ suc k),
  div-div-eq-div-mul (bit_or x (2 ^ suc k)) 2 (2 ^ k),
  bit_or-pow_self k (x / 2),
)

bit_or-zero_fuel : (n a : ℕ) → a ≤ n → bit_or a 0 ≡ a
bit_or-zero_fuel n zero h = zero-bit_or 0
bit_or-zero_fuel zero (suc a) h = absurd (omega arith)
bit_or-zero_fuel (suc n) (suc a) h =
    omega (arith, bit_or_split (suc a) 0, bit_or-zero_fuel n (suc a / 2) (omega arith))

pub bit_or-zero : (a : ℕ) → bit_or a 0 ≡ a
bit_or-zero a = bit_or-zero_fuel a a (le_refl a)

pub bit_or-pow_ne : (k j x : ℕ) → k ≢ j → bit_or x (2 ^ k) / 2 ^ j % 2 ≡ x / 2 ^ j % 2
bit_or-pow_ne zero zero x h = absurd (h refl)
bit_or-pow_ne zero (suc j) x h = ground (
  arith,
  pow-succ' 2 j,
  bit_or_split x 1,
  bit_or-zero (x / 2),
  div-div-eq-div-mul (bit_or x 1) 2 (2 ^ j),
  div-div-eq-div-mul x 2 (2 ^ j),
)
bit_or-pow_ne (suc k) zero x h = omega (arith, pow-succ' 2 k, bit_or_split x (2 ^ suc k))
bit_or-pow_ne (suc k) (suc j) x h = ground (
  arith,
  pow-succ' 2 k,
  pow-succ' 2 j,
  bit_or_split x (2 ^ suc k),
  div-div-eq-div-mul (bit_or x (2 ^ suc k)) 2 (2 ^ j),
  div-div-eq-div-mul x 2 (2 ^ j),
  bit_or-pow_ne k j (x / 2) (λ e. h (ap suc e)),
)

-- A mask that is applied twice is applied once.
bit_and_idem_fuel : (n a b : ℕ) → a ≤ n → bit_and (bit_and a b) b ≡ bit_and a b
bit_and_idem_fuel n zero b h = rw zero-bit_and (zero-bit_and b)
bit_and_idem_fuel zero (suc a) b h = absurd (omega arith)
bit_and_idem_fuel (suc n) (suc a) b h = ground (
  arith,
  bit_and_split (suc a) b,
  bit_and_split (bit_and (suc a) b) b,
  bit_and_idem_fuel n (suc a / 2) (b / 2) (omega arith),
)

pub bit_and_idem : (a b : ℕ) → bit_and (bit_and a b) b ≡ bit_and a b
bit_and_idem a b = bit_and_idem_fuel a a b (le_refl a)

pub bit_or-pow-lt : (n k x : ℕ) → x < 2 ^ n → k < n → bit_or x (2 ^ k) < 2 ^ n
bit_or-pow-lt zero k x h lt = absurd (omega arith)
bit_or-pow-lt (suc n) zero x h lt =
    ground (arith, pow-succ' 2 n, bit_or_split x 1, bit_or-zero (x / 2))
bit_or-pow-lt (suc n) (suc k) x h lt =
    ground
      (arith, pow-succ' 2 n, pow-succ' 2 k, bit_or_split x (2 ^ suc k), bit_or-pow-lt n k (x / 2))

bit_xor_split : (v w : ℕ) → bit_xor v w ≡ differ (v % 2) (w % 2) + 2 * bit_xor (v / 2) (w / 2)
bit_xor_split zero w = simp bit_xor-bitwise (omega arith)
bit_xor_split (suc v) w = simp bit_xor-bitwise (lowest_digit (λ t. t) differ v w)

differ_comm : (a b : ℕ) → differ a b ≡ differ b a
differ_comm zero zero = refl
differ_comm zero (suc b) = refl
differ_comm (suc a) zero = refl
differ_comm (suc a) (suc b) = differ_comm a b

pub bit_xor_comm : (v w : ℕ) → bit_xor v w ≡ bit_xor w v
bit_xor_comm v w = up_to (max v w) v w (omega arith) (omega arith)
  where
    up_to : (n v w : ℕ) → v ≤ n → w ≤ n → bit_xor v w ≡ bit_xor w v
    up_to zero v w hv hw =
        let e : v ≡ 0 = omega (arith, hv) in let e' : w ≡ 0 = omega (arith, hw) in rw (e, e') refl
    up_to (suc n) v w hv hw =
        let halves = up_to n (v / 2) (w / 2) (omega arith) (omega arith) in
        bit_xor_split v w
        ∙ ap₂ (λ (a b : ℕ). a + 2 * b) (differ_comm (v % 2) (w % 2)) halves
        ∙ sym (bit_xor_split w v)
