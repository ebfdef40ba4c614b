-- ===== src/Connection/Pairs.antt =====
-- The keys of src/packet/connection_id.c: two belong to one connection if they are the same or each
-- other's reverse, and then they have the same number.
use libcap_utils.Prelude.{
  ℕ, ◌+◌, ◌≤◌, ◌≡◌, ◌⊎◌, refl, ap, Bool, Bool-cases, true, false, ◌||◌, Option, Option-cases, none,
  some, List, [], ◌∷◌, inl, inr, length, arith, sym, ◌∙◌,
}
use libcap_utils.Connection.{Entry}
use libcap_utils.Connection.Keys.{connection_id_cmp}
use libcap_utils.Connection.Numbers.{
  reverse, joins, number_from, number, number_from-append, assign,
}

connection_id_cmp-eq : (f e : Entry) → connection_id_cmp f e ≡ true → f ≡ e
unfolding connection_id_cmp
connection_id_cmp-eq f e h =
    let protocol : f.protocol ≡ e.protocol = ground (arith, h) in
    let finished : f.finished ≡ e.finished = ground (arith, h) in
    let src : f.src ≡ e.src = ground (arith, h) in
    let dst : f.dst ≡ e.dst = ground (arith, h) in
    let sport : f.sport ≡ e.sport = ground (arith, h) in
    let dport : f.dport ≡ e.dport = ground (arith, h) in
    λ i. record {
      protocol = protocol i;
      finished = finished i;
      src = src i;
      dst = dst i;
      sport = sport i;
      dport = dport i;
    }

connection_id_cmp_refl : (e : Entry) → connection_id_cmp e e ≡ true
unfolding connection_id_cmp
connection_id_cmp_refl e = ground arith

connection_id_cmp-reverse :
    (f e : Entry) → connection_id_cmp f (reverse e) ≡ connection_id_cmp (reverse f) e
unfolding connection_id_cmp
connection_id_cmp-reverse f e = ground arith

joins-forms : (f e : Entry) → joins f e ≡ true → (f ≡ e) ⊎ (reverse f ≡ e)
joins-forms f e h = elim (Bool-cases (connection_id_cmp f e)) [
  | inl same ↦ inl (connection_id_cmp-eq f e same)
  | inr other ↦ inr (connection_id_cmp-eq (reverse f) e (ground (arith, h, other)))
]

joins_refl : (e : Entry) → joins e e ≡ true
joins_refl e = ground (arith, connection_id_cmp_refl e)

joins-reverse : (f e : Entry) → joins f (reverse e) ≡ joins f e
joins-reverse f e =
    ground (arith, connection_id_cmp-reverse f e, connection_id_cmp-reverse (reverse f) e)

reverse-joins : (e : Entry) → joins (reverse e) e ≡ true
reverse-joins e = ground (arith, connection_id_cmp_refl e)

||_swap : (a b : Bool) → a || b ≡ true → b || a ≡ true
||_swap true true h = refl
||_swap true false h = refl
||_swap false true h = refl
||_swap false false h = h

-- Two keys of one connection.
joins_shared : (f e e' : Entry) → joins f e ≡ true → joins f e' ≡ true → joins e e' ≡ true
joins_shared f e e' h h' = elim (joins-forms f e h) [
  | inl same ↦ rw (← same) h'
  | inr back ↦ rw (← back) (||_swap (connection_id_cmp f e') _ h')
]

number_from-le : (n : ℕ) (fs : List Entry) (e : Entry) (k : ℕ) → number_from n fs e ≡ some k → n ≤ k
unfolding number_from
number_from-le n [] e k h = cc
number_from-le n (f ∷ fs) e k h = elim (Bool-cases (joins f e)) [
  | inl here ↦ ground (arith, h, here)
  | inr later ↦ ground (arith, number_from-le (n + 1) fs e k (ground (arith, h, later)))
]

-- Keys with the same number belong to one connection.
pub number_from-joins :
    (n : ℕ) (fs : List Entry) (e e' : Entry) (k : ℕ)
    → number_from n fs e ≡ some k
    → number_from n fs e' ≡ some k
    → joins e e' ≡ true
unfolding number_from
number_from-joins n [] e e' k h h' = cc
number_from-joins n (f ∷ fs) e e' k h h' = elim (Bool-cases (joins f e)) [
  | inl here ↦ elim (Bool-cases (joins f e')) [
    | inl here' ↦ joins_shared f e e' here here'
    | inr later' ↦
        let up = number_from-le (n + 1) fs e' k (rw later' at h') in
        absurd (ground (arith, up, h, here))
  ]
  | inr later ↦ elim (Bool-cases (joins f e')) [
    | inl here' ↦
        let up = number_from-le (n + 1) fs e k (rw later at h) in
        absurd (ground (arith, up, h', here'))
    | inr later' ↦ number_from-joins (n + 1) fs e e' k (rw later at h) (rw later' at h')
  ]
]

number_from-reverse :
    (n : ℕ) (fs : List Entry) (e : Entry) → number_from n fs (reverse e) ≡ number_from n fs e
unfolding number_from
number_from-reverse n [] e = refl
number_from-reverse n (f ∷ fs) e = rw (joins-reverse f e, number_from-reverse (n + 1) fs e) refl

-- Keys of one connection have the same number.
pub joins-number : (fs : List Entry) (e e' : Entry) → joins e e' ≡ true → number fs e ≡ number fs e'
joins-number fs e e' h = elim (joins-forms e e' h) [
  | inl same ↦ ap (number fs) same
  | inr back ↦ sym (number_from-reverse 1 fs e) ∙ ap (number fs) back
]

-- A number stays the same, whatever is seen later.
pub number-assign :
    (fs : List Entry) (o : Option Entry) (e : Entry) (n : ℕ)
    → number fs e ≡ some n
    → number (assign fs o).0 e ≡ some n
unfolding assign
number-assign fs none e n h = h
number-assign fs (some f) e n h = elim (Option-cases (number fs f)) [
  | inl unseen ↦ rw (assign, unseen) (rw (number_from-append 1 fs f e, h) refl)
  | inr (k, seen) ↦ rw (assign, seen) h
]

assign-number_self :
    (fs : List Entry) (e : Entry) → number (assign fs (some e)).0 e ≡ some (assign fs (some e)).1
unfolding assign
assign-number_self fs e = elim (Option-cases (number fs e)) [
  | inl unseen ↦
      let next : 1 + length fs ≡ length fs + 1 = omega arith in
      rw (assign, unseen) (rw (number_from-append 1 fs e e, unseen, joins_refl e) (ap some next))
  | inr (k, seen) ↦ rw (assign, seen) seen
]

-- The key of a packet has the packet's number.
pub assign-number :
    (fs : List Entry) (o : Option Entry) (e : Entry)
    → o ≡ some e
    → number (assign fs o).0 e ≡ some (assign fs o).1
assign-number fs o e h = rw h (assign-number_self fs e)
