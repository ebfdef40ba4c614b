-- ===== src/Capmerge/Chosen.antt =====
-- The choice of a stream to read from in src/tools/capmerge.c.
use libcap_utils.Prelude.{
  ℕ, zero, suc, ◌+◌, ◌≡◌, ◌⊎◌, refl, ap, Bool-cases, Option, none, some, List, [], ◌∷◌, ◌++◌, inl,
  inr, length, ◌>>=◌, arith, ◌∙◌,
}
use mathlib.Core.List.{Perm, perm_middle}
use mathlib.Core.List.Perm
use libcap_utils.Time.{Picotime, timecmp}
use libcap_utils.Filter.{CapHeader}
use libcap_utils.Capmerge.Merge.{
  Source, last_source, peek_all, is_before, is_older, find_oldest, read_source, sources,
}
use libcap_utils.Capmerge.Peeked.{packets_of, total, peek_lem}

-- What was peeked is at the front of its stream.
abbrev pub Consistent : List (Option CapHeader × Source) → Type 0
Consistent [] = Unit {0}
Consistent ((none, s) ∷ peeked) = Consistent peeked
Consistent ((some cp, s) ∷ peeked) = ((rest : Source) × (s ≡ cp ∷ rest)) × Consistent peeked

pub peek_all-Consistent : (n : ℕ) (st : List Source) → Consistent (peek_all n st)
unfolding peek_all
peek_all-Consistent zero st = tt
peek_all-Consistent (suc n) [] = tt
peek_all-Consistent (suc n) (s ∷ []) = elim (peek_lem s) [
  | inl failed ↦ rw (peek_all, failed) tt
  | inr (cp, rest, first, shown) ↦ rw (peek_all, shown) ((rest, first), tt)
]
peek_all-Consistent (suc n) (s ∷ (r ∷ st)) = elim (peek_lem s) [
  | inl failed ↦ rw (peek_all, failed) (peek_all-Consistent n (last_source r st).0)
  | inr (cp, rest, first, shown) ↦
      rw (peek_all, shown) ((rest, first), peek_all-Consistent n (r ∷ st))
]

-- A read takes one packet out.
pub record IsRead (st : List Source) (k : ℕ) : Type 0 where
  pub pkt : CapHeader
  pub left : List Source
  pub read : read_source st k ≡ some (pkt, left)
  pub perm : Perm (pkt ∷ packets_of left) (packets_of st)
  pub fewer : total left + 1 ≡ total st
  pub same_length : length left ≡ length st

IsRead-front :
    (cp : CapHeader) (s rest : Source) (st : List Source) → s ≡ cp ∷ rest → IsRead (s ∷ st) 0
unfolding read_source
IsRead-front cp s rest st h = rw h (record {
  pkt = cp;
  left = rest ∷ st;
  read = refl;
  perm = Perm.rfl;
  fewer = omega arith;
  same_length = refl;
})

read_source-suc :
    (s : Source) (st : List Source) (k : ℕ)
    → read_source (s ∷ st) (suc k) ≡ (read_source st k >>= λ got. some (got.0, s ∷ got.1))
unfolding read_source
read_source-suc [] st k = refl
read_source-suc (p ∷ s) st k = refl

IsRead-behind : (s : Source) (st : List Source) (k : ℕ) → IsRead st k → IsRead (s ∷ st) (suc k)
IsRead-behind s st k r =
    let fewer = r.fewer in
    record {
      pkt = r.pkt;
      left = s ∷ r.left;
      read = read_source-suc s st k ∙ rw (r.read) refl;
      perm =
          Perm.trans (Perm.symm (perm_front s r.pkt (packets_of r.left)))
            (Perm.append_left s r.perm);
      fewer = omega (arith, fewer);
      same_length = ap suc r.same_length;
    }
  where
    perm_front :
        (xs : Source) (p : CapHeader) (ys : List CapHeader) → Perm (xs ++ (p ∷ ys)) (p ∷ (xs ++ ys))
    perm_front xs p ys = perm_middle xs ys

-- The search gives a stream to read from, or what it began with.
unfoldable pub Chosen : List (Option CapHeader × Source) → ℕ → Picotime → Option ℕ → Type 0
Chosen peeked i cur oldest =
    (find_oldest peeked i cur oldest ≡ oldest)
    ⊎ ((k : ℕ) × (find_oldest peeked i cur oldest ≡ some (i + k)) × IsRead (sources peeked) k)

pub find_oldest-Chosen :
    (peeked : List (Option CapHeader × Source)) (i : ℕ) (cur : Picotime) (oldest : Option ℕ)
    → Consistent peeked
    → Chosen peeked i cur oldest
unfolding Chosen find_oldest is_older
find_oldest-Chosen [] i cur oldest c = inl refl
find_oldest-Chosen ((none, s) ∷ peeked) i cur oldest c =
    elim (find_oldest-Chosen peeked (i + 1) cur oldest c) [
      | inl same ↦ inl same
      | inr (k, e, r) ↦
          let next : i + 1 + k ≡ i + suc k = omega arith in
          inr (suc k, e ∙ ap some next, IsRead-behind s (sources peeked) k r)
    ]
find_oldest-Chosen ((some cp, s) ∷ peeked) i cur oldest ((rest, h), c) =
    elim (Bool-cases (is_before (timecmp cp.ts cur))) [
      | inl older ↦ elim (find_oldest-Chosen peeked (i + 1) cp.ts (some i) c) [
        | inl same ↦
            let zero_plus : i ≡ i + 0 = omega arith in
            inr (0, rw older (same ∙ ap some zero_plus), IsRead-front cp s rest (sources peeked) h)
        | inr (k, e, r) ↦
            let next : i + 1 + k ≡ i + suc k = omega arith in
            inr (suc k, rw older (e ∙ ap some next), IsRead-behind s (sources peeked) k r)
      ]
      | inr other ↦ elim (find_oldest-Chosen peeked (i + 1) cur oldest c) [
        | inl same ↦ inl (rw other same)
        | inr (k, e, r) ↦
            let next : i + 1 + k ≡ i + suc k = omega arith in
            inr (suc k, rw other (e ∙ ap some next), IsRead-behind s (sources peeked) k r)
      ]
    ]
