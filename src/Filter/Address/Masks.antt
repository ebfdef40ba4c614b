-- ===== src/Filter/Address/Masks.antt =====
-- The masks that `parse_inet_addr` of src/createfilter.c makes of a number of bits.
use libcap_utils.Prelude.{
  ℕ, zero, suc, ◌+◌, ◌-◌, ◌*◌, ◌/◌, ◌^◌, ◌≤◌, ◌<◌, ◌≡◌, refl, true, false, some, Option, List, [],
  ◌∷◌, ◌++◌, bit_and, bit_or, bit_or-shifted, pow-add_one, pow-pos, ◌==◌, leb, swap32, arith, ◌∙◌,
  ap, sym,
}
use libcap_utils.Filter.Address.{
  Texts, cidr_loop, split, slash, dot, has, mask_text, parse_mask, parse_inet_addr,
}

one_more_bit : (mask : ℕ) → mask < 2 ^ 32 → bit_or (mask / 2) (2 ^ 31) ≡ mask / 2 + 2 ^ 31
one_more_bit mask h = bit_or-shifted 31 (mask / 2) 1 (omega arith)

halved : (k : ℕ) → k < 32 → 2 ^ (32 - k) ≡ 2 * 2 ^ (32 - suc k)
halved k h = let e : 32 - k ≡ 32 - suc k + 1 = omega (arith, h) in rw e (pow-add_one (32 - suc k))

pow_grows : (j k : ℕ) → 2 ^ k ≤ 2 ^ (k + j)
pow_grows zero k = let e : k + 0 ≡ k = omega arith in rw e (omega arith)
pow_grows (suc j) k =
    let e : k + suc j ≡ k + j + 1 = omega arith in
    rw (e, pow-add_one (k + j)) (omega (arith, pow_grows j k))

pow_le : (j k n : ℕ) → n ≡ k + j → 2 ^ k ≤ 2 ^ n
pow_le j k n e = rw e (pow_grows j k)

pow-bounded : (k : ℕ) → k ≤ 31 → 2 ^ k ≤ 2 ^ 31
pow-bounded k h = pow_le (31 - k) k 31 (omega (arith, h))

-- With `k` bits set at the top, `n` more are set below them.
cidr_loop-from :
    (n k : ℕ) → n + k ≤ 32 → cidr_loop n (2 ^ 32 - 2 ^ (32 - k)) ≡ 2 ^ 32 - 2 ^ (32 - (n + k))
unfolding cidr_loop
cidr_loop-from zero k h = let e : 0 + k ≡ k = omega arith in rw e refl
cidr_loop-from (suc n) k h =
    let p = 2 ^ (32 - suc k) in
    let twice = halved k (omega (arith, h)) in
    let small = pow-bounded (32 - suc k) (omega arith) in
    let positive = pow-pos (32 - suc k) in
    let bit = one_more_bit (2 ^ 32 - 2 ^ (32 - k)) (omega (arith, twice, positive)) in
    let step : bit_or ((2 ^ 32 - 2 ^ (32 - k)) / 2) (2 ^ 31) ≡ 2 ^ 32 - p =
      omega (arith, bit, twice, small) in
    let e : suc n + k ≡ n + suc k = omega arith in
    rw (step, e) (cidr_loop-from n (suc k) (omega (arith, h)))

-- The loop sets the given number of bits at the top of the word.
cidr_loop-mask : (bits : ℕ) → bits ≤ 32 → cidr_loop bits 0 ≡ 2 ^ 32 - 2 ^ (32 - bits)
cidr_loop-mask bits h =
    let e : bits ≡ bits + 0 = omega arith in
    let h' : bits + 0 ≤ 32 = omega (arith, h) in
    let all : cidr_loop bits 0 ≡ 2 ^ 32 - 2 ^ (32 - (bits + 0)) = cidr_loop-from bits 0 h' in
    all ∙ ap (λ (b : ℕ). 2 ^ 32 - 2 ^ (32 - b)) (sym e)

split-slash :
    (front back : List ℕ)
    → has slash front ≡ false
    → split (front ++ (slash ∷ back)) ≡ (front, some back)
unfolding split
split-slash [] back h = refl
split-slash (c ∷ front) back h =
    let ih = split-slash front back (ground (arith, h)) in
    let other : c == slash ≡ false = ground (arith, h) in rw (ih, other) refl

parse_mask-cidr :
    (texts : Texts) (text : List ℕ)
    → has dot text ≡ false
    → texts.atoi text ≤ 32
    → parse_mask texts text ≡ some (swap32 (2 ^ 32 - 2 ^ (32 - texts.atoi text)))
unfolding parse_mask
parse_mask-cidr texts text d h =
    let mask = cidr_loop-mask (texts.atoi text) h in
    let small : leb (texts.atoi text) 32 ≡ true = ground (arith, h) in rw (d, small, mask) refl

-- What the text "ADDR/BITS" comes to, with at most 32 bits: the bits of the address under the mask of
-- so many ones at the top, which is stored in network order.
pub parse_inet_addr-cidr :
    (texts : Texts) (front back : List ℕ) (a addr mask : ℕ)
    → has slash front ≡ false
    → has dot back ≡ false
    → texts.aton front ≡ some a
    → texts.atoi back ≤ 32
    → let k = swap32 (2 ^ 32 - 2 ^ (32 - texts.atoi back)) in
      parse_inet_addr texts (front ++ (slash ∷ back)) addr mask ≡ (true, bit_and a k, k)
unfolding parse_inet_addr
parse_inet_addr-cidr texts front back a addr mask f b e h =
    let parts = split-slash front back f in
    let mask_part : parse_mask texts (mask_text (split (front ++ (slash ∷ back))).1)
        ≡ some (swap32 (2 ^ 32 - 2 ^ (32 - texts.atoi back))) =
      ap (λ (p : List ℕ × Option (List ℕ)). parse_mask texts (mask_text p.1)) parts
      ∙ parse_mask-cidr texts back b h in
    let addr_part : texts.aton (split (front ++ (slash ∷ back))).0 ≡ some a =
      ap (λ (p : List ℕ × Option (List ℕ)). texts.aton p.0) parts ∙ e in
    rw (parse_inet_addr, addr_part, mask_part) refl
