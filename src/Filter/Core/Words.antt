-- ===== src/Filter/Core/Words.antt =====
-- The word of a list of tests, and what its comparison with another word decides.
use libcap_utils.Prelude.{
  ℕ, zero, suc, ◌+◌, ◌*◌, ◌/◌, ◌%◌, ◌<◌, ◌^◌, ◌≡◌, refl, arith, Bool, true, false, List, [], ◌∷◌,
  ◌&&◌, ◌||◌, not, bit_or, bit_and, ◌==◌, ltb, if◌then◌else◌, bit_or-shifted, bit_and-pow,
  pow-add_one, pow-pos, ◌∙◌,
}
use libcap_utils.Filter.{selected}
use libcap_utils.Filter.Core.{accumulate}
use native.Mathlib.Nat.{mul_assoc}

abbrev pub bit : Bool → ℕ
bit b = if b then 1 else 0

-- The word whose bits are a list, the lowest first.
abbrev pub word : List Bool → ℕ
word [] = 0
word (b ∷ bs) = bit b + 2 * word bs

-- The bits `k` to `k + n` of an index, as `selected` reads them.
abbrev pub selections : ℕ → ℕ → ℕ → List Bool
selections zero k index = []
selections (suc n) k index = selected index k ∷ selections n (k + 1) index

abbrev pub both : List Bool → List Bool → List Bool
both (s ∷ ss) (c ∷ cs) = (s && c) ∷ both ss cs
both _ _ = []

-- Every selected criterion holds; some selected criterion holds.
abbrev pub every_selected : List Bool → List Bool → Bool
every_selected (s ∷ ss) (c ∷ cs) = (not s || c) && every_selected ss cs
every_selected _ _ = true

abbrev pub some_selected : List Bool → List Bool → Bool
some_selected (s ∷ ss) (c ∷ cs) = s && c || some_selected ss cs
some_selected _ _ = false

abbrev pub SameLength : List Bool → List Bool → Type 0
SameLength [] [] = Unit {0}
SameLength (_ ∷ xs) (_ ∷ ys) = SameLength xs ys
SameLength _ _ = ⊥

bit_or-shifted-lt : (k m : ℕ) (b : Bool) → m < 2 ^ k → bit_or m (bit b * 2 ^ k) < 2 ^ (k + 1)
bit_or-shifted-lt k m b h = ground (arith, pow-add_one k, bit_or-shifted k m (bit b))

pub accumulate-word :
    (match offset : ℕ) (bs : List Bool)
    → match < 2 ^ offset
    → accumulate match offset bs ≡ match + word bs * 2 ^ offset
unfolding accumulate
accumulate-word match offset [] h = omega arith
accumulate-word match offset (b ∷ bs) h = ground (
  arith,
  pow-add_one offset,
  bit_or-shifted offset match (bit b),
  bit_or-shifted-lt offset match b h,
  accumulate-word (bit_or match (bit b * 2 ^ offset)) (offset + 1) bs,
  mul_assoc (word bs) 2 (2 ^ offset),
)

pub word-both_eq :
    (ss cs : List Bool) → SameLength ss cs → (word (both ss cs) == word ss) ≡ every_selected ss cs
word-both_eq [] [] h = refl
word-both_eq [] (c ∷ cs) h = absurd h
word-both_eq (s ∷ ss) [] h = absurd h
word-both_eq (true ∷ ss) (true ∷ cs) h = ground (arith, word-both_eq ss cs h)
word-both_eq (true ∷ ss) (false ∷ cs) h = ground (arith)
word-both_eq (false ∷ ss) (c ∷ cs) h = ground (arith, word-both_eq ss cs h)

pub word-both_pos :
    (ss cs : List Bool) → SameLength ss cs → ltb 0 (word (both ss cs)) ≡ some_selected ss cs
word-both_pos [] [] h = refl
word-both_pos [] (c ∷ cs) h = absurd h
word-both_pos (s ∷ ss) [] h = absurd h
word-both_pos (true ∷ ss) (true ∷ cs) h = ground (arith)
word-both_pos (true ∷ ss) (false ∷ cs) h = ground (arith, word-both_pos ss cs h)
word-both_pos (false ∷ ss) (c ∷ cs) h = ground (arith, word-both_pos ss cs h)

pub bit-selected : (index k : ℕ) → bit (selected index k) ≡ index / 2 ^ k % 2
unfolding selected
bit-selected index k = go (index / 2 ^ k % 2) refl (omega arith)
  where
    go :
        (q : ℕ)
        → index / 2 ^ k % 2 ≡ q
        → q < 2
        → bit (not (bit_and index (2 ^ k) == 0)) ≡ index / 2 ^ k % 2
    go zero e h =
        let z : bit_and index (2 ^ k) ≡ 0 = bit_and-pow k index ∙ rw e (omega arith) in rw (z, e)
    go (suc zero) e h =
        let one : bit_and index (2 ^ k) ≡ 2 ^ k = bit_and-pow k index ∙ rw e (omega arith) in
        rw (one, e) (ground (arith, pow-pos k))
    go (suc (suc q)) e h = absurd (omega arith)

pub word-selections : (index : ℕ) → index < 2 ^ 16 → word (selections 16 0 index) ≡ index
word-selections index h = omega (
  arith,
  bit-selected index 0,
  bit-selected index 1,
  bit-selected index 2,
  bit-selected index 3,
  bit-selected index 4,
  bit-selected index 5,
  bit-selected index 6,
  bit-selected index 7,
  bit-selected index 8,
  bit-selected index 9,
  bit-selected index 10,
  bit-selected index 11,
  bit-selected index 12,
  bit-selected index 13,
  bit-selected index 14,
  bit-selected index 15,
)
