-- ===== src/Capmerge/Peeked.antt =====
-- The peek at all streams in src/tools/capmerge.c, which moves streams about and loses no packet.
use libcap_utils.Prelude.{
  ℕ, zero, suc, ◌+◌, ◌<◌, ◌≤◌, ◌≡◌, ◌≢◌, ◌⊎◌, inl, inr, refl, ap, none, some, ◌==◌, Bool-cases,
  List, [], ◌∷◌, ◌++◌, length, append_assoc, arith, ◌∙◌,
}
use mathlib.Core.List.{
  Mem, Perm, perm_append_comm, mem-cons_self, mem-append_left, mem-append_right,
}
use mathlib.Core.List.Perm
use libcap_utils.Filter.{CapHeader}
use libcap_utils.Capmerge.Merge.{Source, last_source, peek, peek_all, sources}

-- The packets of all streams.
abbrev pub packets_of : List Source → List CapHeader
packets_of [] = []
packets_of (s ∷ st) = s ++ packets_of st

-- The streams' lengths.
abbrev pub total : List Source → ℕ
total [] = 0
total (s ∷ st) = length s + total st

-- Streams in another order.
pub record Reordered (st st' : List Source) : Type 0 where
  pub perm : Perm (packets_of st') (packets_of st)
  pub same_total : total st' ≡ total st

Perm-rotate : (xs ys zs : List CapHeader) → Perm (xs ++ (ys ++ zs)) (ys ++ (xs ++ zs))
Perm-rotate xs ys zs =
    let swapped = Perm.append_right zs (perm_append_comm xs ys) in
    rw (append_assoc xs ys zs, append_assoc ys xs zs) at swapped

last_source-Reordered :
    (s : Source) (st : List Source)
    → Reordered (s ∷ st) ((last_source s st).1 ∷ (last_source s st).0)
last_source-Reordered s [] = record { perm = Perm.rfl; same_total = refl }
last_source-Reordered s (r ∷ rest) =
    let again = last_source-Reordered r rest in
    let same = again.same_total in
    record {
      perm =
          Perm.trans (Perm-rotate (last_source r rest).1 s (packets_of (last_source r rest).0))
            (Perm.append_left s again.perm);
      same_total = omega (arith, same);
    }

length-last_source : (s : Source) (st : List Source) → length (last_source s st).0 ≡ length st
length-last_source s [] = refl
length-last_source s (r ∷ rest) = ap suc (length-last_source r rest)

Reordered-cons :
    (s : Source) (st st' : List Source) → Reordered st st' → Reordered (s ∷ st) (s ∷ st')
Reordered-cons s st st' r = record {
  perm = Perm.append_left s r.perm;
  same_total = ap (λ (n : ℕ). length s + n) r.same_total;
}

pub Reordered-trans : (a b c : List Source) → Reordered a b → Reordered b c → Reordered a c
Reordered-trans a b c r r' = record {
  perm = Perm.trans r'.perm r.perm;
  same_total = r'.same_total ∙ r.same_total;
}

-- Every packet has captured bytes.
abbrev pub AllCaptured : List CapHeader → Type 0
AllCaptured packets = (p : CapHeader) → Mem p packets → p.caplen ≢ 0

-- A peek that succeeds shows the first packet.
pub peek_lem :
    (s : Source)
    → (peek s ≡ none) ⊎ ((cp : CapHeader) × (rest : Source) × (s ≡ cp ∷ rest) × (peek s ≡ some cp))
unfolding peek
peek_lem [] = inl refl
peek_lem (cp ∷ rest) = elim (Bool-cases (cp.caplen == 0)) [
  | inl nothing ↦ inl (rw nothing refl)
  | inr captured ↦ inr (cp, rest, refl, rw captured refl)
]

-- A peek that fails is at the end of its stream.
pub peek-end : (s : Source) → AllCaptured s → peek s ≡ none → s ≡ []
unfolding peek
peek-end [] captured h = refl
peek-end (cp ∷ rest) captured h = absurd (ground (arith, captured cp mem-cons_self, h))

-- The peek loses no packet, if each has captured bytes.
pub peek_all-Reordered :
    (n : ℕ) (st : List Source)
    → length st ≤ n
    → AllCaptured (packets_of st)
    → Reordered st (sources (peek_all n st))
unfolding peek_all
peek_all-Reordered zero [] h captured = record { perm = Perm.rfl; same_total = refl }
peek_all-Reordered zero (s ∷ st) h captured = absurd (omega arith)
peek_all-Reordered (suc n) [] h captured = record { perm = Perm.rfl; same_total = refl }
peek_all-Reordered (suc n) (s ∷ []) h captured = elim (peek_lem s) [
  | inr (cp, rest, _, shown) ↦ rw (peek_all, shown) (record { perm = Perm.rfl; same_total = refl })
  | inl failed ↦
      let ended = peek-end s (λ p m. captured p (mem-append_left _ m)) failed in
      rw (peek_all, failed, ended) (record { perm = Perm.rfl; same_total = refl })
]
peek_all-Reordered (suc n) (s ∷ (r ∷ st)) h captured = elim (peek_lem s) [
  | inr (cp, rest, _, shown) ↦
      rw (peek_all, shown)
        (Reordered-cons s (r ∷ st) _
          (peek_all-Reordered n (r ∷ st) (omega arith) (λ p m. captured p (mem-append_right s m))))
  | inl failed ↦
      let ended = peek-end s (λ p m. captured p (mem-append_left _ m)) failed in
      let len = length-last_source r st in
      let turned = last_source-Reordered r st in
      let inner = peek_all-Reordered n (last_source r st).0 (omega (arith, len, h)) (λ p m.
        captured p (
          mem-append_right s
            ((Perm.mem_iff turned.perm).0 (mem-append_right (last_source r st).1 m)))) in
      let moved = Reordered-cons (last_source r st).1 _ _ inner in
      let whole = Reordered-trans _ _ _ turned moved in
      let same = whole.same_total in
      rw (peek_all, failed, ended) (record { perm = whole.perm; same_total = omega (arith, same) })
]

pub length-peek_all : (n : ℕ) (st : List Source) → length (sources (peek_all n st)) ≤ length st
unfolding peek_all
length-peek_all zero st = omega arith
length-peek_all (suc n) [] = omega arith
length-peek_all (suc n) (s ∷ []) = elim (peek_lem s) [
  | inl failed ↦ rw (peek_all, failed) (omega arith)
  | inr (cp, rest, _, shown) ↦ rw (peek_all, shown) (omega arith)
]
length-peek_all (suc n) (s ∷ (r ∷ st)) = elim (peek_lem s) [
  | inl failed ↦
      rw (peek_all, failed)
        (omega (arith, length-last_source r st, length-peek_all n (last_source r st).0))
  | inr (cp, rest, _, shown) ↦ rw (peek_all, shown) (omega (arith, length-peek_all n (r ∷ st)))
]

-- A stream that is closed is no more.
pub length-peek_all_closed :
    (n : ℕ) (s : Source) (st : List Source)
    → peek s ≡ none
    → length (sources (peek_all (suc n) (s ∷ st))) < length st + 1
unfolding peek_all
length-peek_all_closed n s [] failed = rw (peek_all, failed) (omega arith)
length-peek_all_closed n s (r ∷ st) failed =
    rw (peek_all, failed)
      (omega (arith, length-last_source r st, length-peek_all n (last_source r st).0))
