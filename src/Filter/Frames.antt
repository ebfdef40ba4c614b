-- ===== src/Filter/Frames.antt =====
-- Frame ranges: the first range is the only one that is tested, and a range that is over is dropped
-- after the test. Against the set of frames that the ranges stand for.
pub mod Run
use libcap_utils.Prelude.{
  ℕ, zero, suc, ◌+◌, ◌<◌, ◌≤◌, ◌≡◌, refl, arith, Bool, true, false, List, [], ◌∷◌, ◌&&◌, ◌||◌, not,
  ltb, if◌then◌else◌, Bool-cases, ◌⊎◌, inl, inr, ◌≢◌,
}
use libcap_utils.Prelude.Int.{ℤ, pos, negsuc, ltb_ℤ, pos_part, neg_part}
use libcap_utils.Filter.{Range}
use libcap_utils.Filter.Criteria.{frame_num_range}
use libcap_utils.Filter.Match.{prune}

-- A range has an upper bound if it is more than 0.
abbrev pub bounded : Range → Bool
bounded r = ltb_ℤ (pos 0) r.upper

-- Whether a range holds a frame: inclusive bounds, the upper one only where it is set.
abbrev pub in_range : ℕ → Range → Bool
in_range n r = not (ltb_ℤ (pos n) r.lower) && not (bounded r && ltb_ℤ r.upper (pos n))

-- Whether one of the ranges holds a frame.
abbrev pub in_ranges : ℕ → List Range → Bool
in_ranges n [] = false
in_ranges n (r ∷ rs) = in_range n r || in_ranges n rs

-- A range with an upper bound holds a frame.
abbrev pub IsProper : Range → Type 0
IsProper r = (pos_part r.upper ≡ 0) ⊎ (pos_part r.lower ≤ pos_part r.upper)

-- Every range is proper, and starts at least two frames after `n`.
abbrev pub Beyond : ℕ → List Range → Type 0
Beyond n [] = Unit {0}
Beyond n (r ∷ rs) = (n + 2 ≤ pos_part r.lower) × IsProper r × Beyond n rs

-- Each range but the last has an upper bound, and leaves out a frame before the later ones begin.
abbrev pub Separated : List Range → Type 0
Separated [] = Unit {0}
Separated (r ∷ []) = Unit {0}
Separated (r ∷ s ∷ rs) =
    (0 < pos_part r.upper) × Beyond (pos_part r.upper) (s ∷ rs) × Separated (s ∷ rs)

-- The first range is not over before the frame before `n`.
abbrev pub IsCurrent : ℕ → List Range → Type 0
IsCurrent n [] = Unit {0}
IsCurrent n (r ∷ rs) = (pos_part r.upper ≡ 0) ⊎ (n ≤ pos_part r.upper + 1)

not_in_Beyond : (c n : ℕ) (rs : List Range) → c ≤ n + 1 → Beyond n rs → in_ranges c rs ≡ false
not_in_Beyond c n [] h b = refl
not_in_Beyond c n (r ∷ rs) h b = ground (arith, not_in_Beyond c n rs h b.2)

-- The test of the first range alone finds whether any of the ranges holds the frame.
pub frame_num_range-in_ranges :
    (n : ℕ) (rs : List Range)
    → Separated rs
    → IsCurrent n rs
    → frame_num_range rs n ≡ in_ranges n rs
unfolding frame_num_range
frame_num_range-in_ranges n [] s c = refl
frame_num_range-in_ranges n (r ∷ []) s c = ground arith
frame_num_range-in_ranges n (r ∷ q ∷ rs) s c = ground (
  arith,
  not_in_Beyond n (pos_part r.upper) (q ∷ rs) (omega arith) s.1,
  Bool-cases (in_range n q || in_ranges n rs),
)

-- Dropping keeps the ranges apart and the first of them current.
prune-Separated : (n : ℕ) (rs : List Range) → Separated rs → Separated (prune rs n)
unfolding prune
prune-Separated n [] s = tt
prune-Separated n (r ∷ []) s = ground arith
prune-Separated n (r ∷ q ∷ rs) s = elim (Bool-cases (bounded r && ltb_ℤ r.upper (pos n))) [
  | inl over ↦ rw over s.2
  | inr still ↦ rw still s
]

prune-IsCurrent :
    (n : ℕ) (rs : List Range) → Separated rs → IsCurrent n rs → IsCurrent (n + 1) (prune rs n)
unfolding prune
prune-IsCurrent n [] s c = tt
prune-IsCurrent n (r ∷ []) s c = ground arith
prune-IsCurrent n (r ∷ q ∷ rs) s c = elim (Bool-cases (bounded r && ltb_ℤ r.upper (pos n))) [
  | inl over ↦ rw over (ground arith)
  | inr still ↦ rw still (ground arith)
]

-- A frame that comes later is in the ranges that are left exactly if it was in the ranges before.
in_ranges-prune : (n k : ℕ) (rs : List Range) → n ≤ k → in_ranges k (prune rs n) ≡ in_ranges k rs
unfolding prune
in_ranges-prune n k [] h = refl
in_ranges-prune n k (r ∷ rs) h = ground arith

-- Of two ranges that touch, the first frame of the second one is lost: it is tested against the
-- first range alone, which is over, and only then is that range dropped.
adjacent_range :
    (u v : ℕ) (lower : ℤ) (rs : List Range)
    → 0 < u
    → u < v
    → let first_range : Range = record { lower = lower; upper = pos u } in
      let second_range : Range = record { lower = pos (u + 1); upper = pos v } in
      let ranges = first_range ∷ second_range ∷ rs in
      (in_range (u + 1) second_range ≡ true)
      × (frame_num_range ranges (u + 1) ≡ false)
      × (prune ranges (u + 1) ≡ second_range ∷ rs)
unfolding frame_num_range prune
adjacent_range u v lower rs h k = ground arith
