-- ===== src/Capmerge/Smallest.antt =====
-- The search for the smallest timestamp in src/tools/capmerge.c.
use libcap_utils.Prelude.{
  ℕ, suc, ◌+◌, ◌≡◌, ◌⊎◌, refl, ap, Bool-cases, true, false, ◌&&◌, Option, some, List, [], ◌∷◌, ◌++◌,
  inl, inr, length, All, ltb, if◌then◌else◌, arith, ◌∙◌,
}
use libcap_utils.Time.{Picotime, timecmp}
use libcap_utils.Filter.{CapHeader}
use libcap_utils.Capmerge.{is_after, skip, find_smallest}

-- The packets that are not written yet.
unfoldable pub live : List CapHeader → List CapHeader
live [] = []
live (cp ∷ packets) = let rest = live packets in if ltb 0 cp.len then cp ∷ rest else rest

-- Not later than a packet.
abbrev pub Reaches : Picotime → CapHeader → Type 0
Reaches t q = is_after (timecmp t q.ts) ≡ false

pub live-append : (xs ys : List CapHeader) → live (xs ++ ys) ≡ live xs ++ live ys
unfolding live
live-append [] ys = refl
live-append (x ∷ xs) ys = elim (Bool-cases (ltb 0 x.len)) [
  | inl yes_live ↦ rw (yes_live, live-append xs ys) refl
  | inr no_more ↦ rw (no_more, live-append xs ys) refl
]

pub live-skip : (ps : List CapHeader) → live (skip ps) ≡ live ps
unfolding live skip
live-skip [] = refl
live-skip (p ∷ ps) = elim (Bool-cases (ltb 0 p.len)) [
  | inl here ↦ rw (here, live, here) refl
  | inr gone ↦ rw gone (live-skip ps)
]

-- The first packet of the smallest timestamp, among those below a given one.
pub record IsSmallest (ps : List CapHeader) (cur : Picotime) (i : ℕ) : Type 0 where
  pub front : List CapHeader
  pub pkt : CapHeader
  pub back : List CapHeader
  pub split : ps ≡ front ++ (pkt ∷ back)
  pub index : i ≡ length front
  pub is_live : ltb 0 pkt.len ≡ true
  pub smaller : is_after (timecmp cur pkt.ts) ≡ true
  pub least : All (Reaches pkt.ts) (live ps)

timecmp_swap : (a b : Picotime) → is_after (timecmp a b) ≡ true → is_after (timecmp b a) ≡ false
unfolding timecmp
timecmp_swap a b h = ground (arith, h)

timecmp_between :
    (a b c : Picotime)
    → is_after (timecmp a b) ≡ true
    → is_after (timecmp a c) ≡ false
    → is_after (timecmp b c) ≡ false
unfolding timecmp
timecmp_between a b c h k = ground (arith, h, k)

timecmp_chain :
    (a b c : Picotime)
    → is_after (timecmp a b) ≡ true
    → is_after (timecmp b c) ≡ true
    → is_after (timecmp a c) ≡ true
unfolding timecmp
timecmp_chain a b c h k = ground (arith, h, k)

is_after_refl : (a : Picotime) → is_after (timecmp a a) ≡ false
unfolding timecmp
is_after_refl a = ground arith

live_cons :
    (t : Picotime) (p : CapHeader) (ps : List CapHeader)
    → (ltb 0 p.len ≡ true → Reaches t p)
    → All (Reaches t) (live ps)
    → All (Reaches t) (live (p ∷ ps))
unfolding live
live_cons t p ps head rest = elim (Bool-cases (ltb 0 p.len)) [
  | inl here ↦ rw here (head here, rest)
  | inr gone ↦ rw gone rest
]

-- The smallest of the packets behind one.
IsSmallest-behind :
    (p : CapHeader) (ps : List CapHeader) (cur cur' : Picotime) (k : ℕ)
    → (s : IsSmallest ps cur' k) → is_after (timecmp cur s.pkt.ts) ≡ true
    → (ltb 0 p.len ≡ true → Reaches s.pkt.ts p)
    → IsSmallest (p ∷ ps) cur (suc k)
IsSmallest-behind p ps cur cur' k s smaller head = record {
  front = p ∷ s.front;
  pkt = s.pkt;
  back = s.back;
  split = ap (◌∷◌ p) s.split;
  index = ap suc s.index;
  is_live = s.is_live;
  smaller = smaller;
  least = live_cons s.pkt.ts p ps head s.least;
}

unfoldable pub Scanned : List CapHeader → ℕ → Picotime → Option ℕ → Type 0
Scanned ps i cur pkt =
    ((find_smallest ps i cur pkt ≡ pkt) × All (Reaches cur) (live ps))
    ⊎ ((k : ℕ) × (find_smallest ps i cur pkt ≡ some (i + k)) × IsSmallest ps cur k)

-- A packet that is smaller than all before it.
scan_smaller :
    (p : CapHeader) (ps : List CapHeader) (i : ℕ) (cur : Picotime) (pkt : Option ℕ)
    → ltb 0 p.len ≡ true
    → is_after (timecmp cur p.ts) ≡ true
    → Scanned ps (i + 1) p.ts (some i)
    → Scanned (p ∷ ps) i cur pkt
unfolding Scanned find_smallest
scan_smaller p ps i cur pkt here less (inl (e, all)) =
    let zero_plus : i ≡ i + 0 = omega arith in
    inr (
      0,
      rw (here, less) (e ∙ ap some zero_plus),
      record {
        front = [];
        pkt = p;
        back = ps;
        split = refl;
        index = refl;
        is_live = here;
        smaller = less;
        least = live_cons p.ts p ps (λ _. is_after_refl p.ts) all;
      },
    )
scan_smaller p ps i cur pkt here less (inr (k, e, s)) =
    let next : i + 1 + k ≡ i + suc k = omega arith in
    inr (
      suc k,
      rw (here, less) (e ∙ ap some next),
      IsSmallest-behind p ps cur p.ts k s (timecmp_chain cur p.ts s.pkt.ts less s.smaller)
          (λ _. timecmp_swap p.ts s.pkt.ts s.smaller),
    )

-- A packet that is not.
scan_other :
    (p : CapHeader) (ps : List CapHeader) (i : ℕ) (cur : Picotime) (pkt : Option ℕ)
    → (ltb 0 p.len && is_after (timecmp cur p.ts)) ≡ false
    → (ltb 0 p.len ≡ true → Reaches cur p)
    → Scanned ps (i + 1) cur pkt
    → Scanned (p ∷ ps) i cur pkt
unfolding Scanned find_smallest
scan_other p ps i cur pkt other head (inl (e, all)) = inl (rw other e, live_cons cur p ps head all)
scan_other p ps i cur pkt other head (inr (k, e, s)) =
    let next : i + 1 + k ≡ i + suc k = omega arith in
    inr (
      suc k,
      rw other (e ∙ ap some next),
      IsSmallest-behind p ps cur cur k s s.smaller
          (λ here. timecmp_between cur s.pkt.ts p.ts s.smaller (head here)),
    )

pub find_smallest-Scanned :
    (ps : List CapHeader) (i : ℕ) (cur : Picotime) (pkt : Option ℕ) → Scanned ps i cur pkt
unfolding Scanned find_smallest live
find_smallest-Scanned [] i cur pkt = inl (refl, tt)
find_smallest-Scanned (p ∷ ps) i cur pkt = elim (Bool-cases (ltb 0 p.len)) [
  | inr gone ↦
      scan_other p ps i cur pkt (ground (arith, gone)) (λ h. absurd (ground (arith, h, gone)))
        (find_smallest-Scanned ps (i + 1) cur pkt)
  | inl here ↦ elim (Bool-cases (is_after (timecmp cur p.ts))) [
    | inl less ↦
        scan_smaller p ps i cur pkt here less (find_smallest-Scanned ps (i + 1) p.ts (some i))
    | inr not_less ↦
        scan_other p ps i cur pkt (ground (arith, not_less)) (λ _. not_less)
          (find_smallest-Scanned ps (i + 1) cur pkt)
  ]
]
