-- ===== src/Capmerge/Sorted.antt =====
-- What the sorting of src/tools/capmerge.c writes.
use libcap_utils.Prelude.{
  ℕ, zero, suc, ◌+◌, ◌<◌, ◌≤◌, ◌≡◌, refl, ap, Bool-cases, true, none, some, List, [], ◌∷◌, ◌++◌,
  inl, inr, length, length-append, All, ltb, get_elem?, arith, sym, ◌∙◌,
}
use mathlib.Core.List.{Perm, perm_middle}
use mathlib.Core.List.Perm
use libcap_utils.Time.{timecmp}
use libcap_utils.Filter.{CapHeader}
use libcap_utils.Capmerge.{last_time, is_after, skip, mark, sort_loop}
use libcap_utils.Capmerge.Smallest.{
  live, Reaches, live-append, live-skip, Scanned, find_smallest-Scanned,
}

-- No packet is before one that stands in front of it.
abbrev pub Ascending : List CapHeader → Type 0
Ascending [] = Unit {0}
Ascending (p ∷ packets) = All (Reaches p.ts) packets × Ascending packets

-- Before the timestamp that the search begins with.
abbrev pub Early : CapHeader → Type 0
Early p = is_after (timecmp last_time p.ts) ≡ true

module _ (p : CapHeader) (back : List CapHeader) where
  live-middle :
      (front : List CapHeader)
      → ltb 0 p.len ≡ true
      → live (front ++ (p ∷ back)) ≡ live front ++ (p ∷ live back)
  unfolding live
  live-middle front h = live-append front (p ∷ back) ∙ rw h refl

  live-mark :
      (front : List CapHeader)
      → live (mark (front ++ (p ∷ back)) (length front)) ≡ live front ++ live back
  unfolding live mark
  live-mark [] = refl
  live-mark (q ∷ front) = elim (Bool-cases (ltb 0 q.len)) [
    | inl here ↦ rw (here, live-mark front) refl
    | inr gone ↦ rw gone (live-mark front)
  ]

  get_elem?-middle :
      (front : List CapHeader) → get_elem? (front ++ (p ∷ back)) (length front) ≡ some p
  get_elem?-middle [] = refl
  get_elem?-middle (q ∷ front) = get_elem?-middle front

module _ (P : CapHeader → Type 0) (p : CapHeader) where
  All-middle : (xs ys : List CapHeader) → All P (xs ++ (p ∷ ys)) → P p × All P (xs ++ ys)
  All-middle [] ys h = h
  All-middle (x ∷ xs) ys (hx, h) = let (hp, rest) = All-middle xs ys h in (hp, (hx, rest))

length-live : (ps : List CapHeader) → length (live ps) ≤ length ps
unfolding live
length-live [] = omega arith
length-live (p ∷ ps) = ground (arith, length-live ps)

-- What the loop writes for packets: all of them, in order. What holds of all packets holds of those
-- written.
record IsWritten (packets out : List CapHeader) : Type 1 where
  perm : Perm out packets
  all : (P : CapHeader → Type 0) → All P packets → All P out
  ascending : Ascending out

IsWritten-cons :
    (p : CapHeader) (xs ys out : List CapHeader)
    → All (Reaches p.ts) (xs ++ (p ∷ ys))
    → IsWritten (xs ++ ys) out
    → IsWritten (xs ++ (p ∷ ys)) (p ∷ out)
IsWritten-cons p xs ys out least w = record {
  perm = Perm.trans (Perm.cons p w.perm) (Perm.symm (perm_middle xs ys));
  all = λ P h. let (hp, rest) = All-middle P p xs ys h in (hp, w.all P rest);
  ascending = (w.all (Reaches p.ts) (All-middle (Reaches p.ts) p xs ys least).1, w.ascending);
}

none-Early : (ps : List CapHeader) → All Early ps → All (Reaches last_time) ps → ps ≡ []
none-Early [] h k = refl
none-Early (p ∷ ps) (h, _) (k, _) = absurd (ground (arith, h, k))

-- The loop on so much fuel, for any packets that are fewer than it.
unfoldable Sorts : ℕ → Type 1
Sorts fuel =
    (ps : List CapHeader)
    → All Early (live ps)
    → length (live ps) < fuel
    → (out : List CapHeader) × (sort_loop fuel ps ≡ some out) × IsWritten (live ps) out

round-IsWritten :
    (fuel : ℕ) (ps : List CapHeader)
    → Sorts fuel
    → All Early (live ps)
    → length (live ps) < suc fuel
    → Scanned (skip ps) 0 last_time none
    → (out : List CapHeader) × (sort_loop (suc fuel) ps ≡ some out) × IsWritten (live ps) out
unfolding sort_loop Scanned Sorts
round-IsWritten fuel ps again early enough (inl (e, all)) =
    let nothing = none-Early (live ps) early (rw (live-skip ps) at all) in
    (
      [],
      rw (sort_loop, e) refl,
      rw nothing (record { perm = Perm.rfl; all = λ P h. h; ascending = tt }),
    )
round-IsWritten fuel ps again early enough (inr (k, e, s)) =
    let zero_plus : 0 + k ≡ k = omega arith in
    let xs = live s.front in
    let ys = live s.back in
    let whole : live (skip ps) ≡ xs ++ (s.pkt ∷ ys) =
      ap live s.split ∙ live-middle s.pkt s.back s.front s.is_live in
    let parts : live ps ≡ xs ++ (s.pkt ∷ ys) = sym (live-skip ps) ∙ whole in
    let rest : live (mark (skip ps) k) ≡ xs ++ ys =
      rw (s.split, s.index) (live-mark s.pkt s.back s.front) in
    let here : get_elem? (skip ps) k ≡ some s.pkt =
      rw (s.split, s.index) (get_elem?-middle s.pkt s.back s.front) in
    let early' = (All-middle Early s.pkt xs ys (rw parts at early)).1 in
    let more = ap length parts ∙ length-append xs (s.pkt ∷ ys) in
    let fewer = ap length rest ∙ length-append xs ys in
    let (out, e', w) =
      again (mark (skip ps) k) (rw rest early') (omega (arith, enough, more, fewer)) in
    (
      s.pkt ∷ out,
      rw (sort_loop, e, zero_plus, here, e') refl,
      rw parts (IsWritten-cons s.pkt xs ys out (rw whole at s.least) (rw rest at w)),
    )

sort_loop-Sorts : (fuel : ℕ) → Sorts fuel
unfolding Sorts
sort_loop-Sorts zero ps early enough = absurd (omega arith)
sort_loop-Sorts (suc fuel) ps early enough =
    round-IsWritten fuel ps (sort_loop-Sorts fuel) early enough
      (find_smallest-Scanned (skip ps) 0 last_time none)

-- The packets that the loop writes are those of the buffer with a length, each as often as it stands
-- there, and none is before one in front of it, if every such packet has a timestamp before the one
-- that the search begins with. A round for each packet and one more are enough.
pub sort_loop-Ascending :
    (packets : List CapHeader)
    → All Early (live packets)
    → (out : List CapHeader) × (sort_loop (length packets + 1) packets ≡ some out)
      × Perm out (live packets)
      × Ascending out
unfolding Sorts
sort_loop-Ascending packets early =
    let (out, e, w) =
      sort_loop-Sorts (length packets + 1) packets early (omega (arith, length-live packets)) in
    (out, e, w.perm, w.ascending)
