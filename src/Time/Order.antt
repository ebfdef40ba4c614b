-- ===== src/Time/Order.antt =====
-- `timecmp` is the order of the instants.
use libcap_utils.Prelude.{ℕ, ◌≡◌, arith, ltb, if◌then◌else◌}
use libcap_utils.Time.{Picotime, Comparison, before, same, after, timecmp, IsNormal, instant}

-- The comparison of two numbers, in the values of `timecmp`.
abbrev pub compare_instants : ℕ → ℕ → Comparison
compare_instants m n = if ltb m n then before else if ltb n m then after else same

-- On normal timestamps `timecmp` compares the instants: it is before, same or after exactly as the
-- picoseconds since the epoch are less, equal or greater.
pub timecmp-instant :
    (a b : Picotime)
    → IsNormal a
    → IsNormal b
    → timecmp a b ≡ compare_instants (instant a) (instant b)
unfolding timecmp
timecmp-instant a b na nb = ground arith

-- Swapping the arguments swaps before and after.
abbrev pub flip : Comparison → Comparison
flip before = after
flip same = same
flip after = before

pub timecmp-flip : (a b : Picotime) → timecmp b a ≡ flip (timecmp a b)
unfolding timecmp
timecmp-flip a b = ground arith

pub timecmp_same : (a b : Picotime) → timecmp a b ≡ same → a ≡ b
unfolding timecmp
timecmp_same a b h = ground arith

pub timecmp_refl : (a : Picotime) → timecmp a a ≡ same
unfolding timecmp
timecmp_refl a = ground arith

pub timecmp_trans :
    (a b c : Picotime) → timecmp a b ≡ before → timecmp b c ≡ before → timecmp a c ≡ before
unfolding timecmp
timecmp_trans a b c h k = ground arith
