-- ===== src/Connection/Slots.antt =====
-- Searching the slots of a bucket, and what the steps of src/packet/connection_id.c do to a search.
use libcap_utils.Prelude.{
  ℕ, zero, suc, ◌+◌, ◌<◌, ◌≡◌, refl, ap, Bool, Bool-cases, Option, none, some, List, [], ◌∷◌, ◌++◌,
  inl, inr, length, ==_iff, if◌then◌else◌, ◌>>=◌, get_elem?, arith, ◌∙◌,
}
use libcap_utils.SimpleList.{find_from}
use libcap_utils.SimpleList.Laws.{or_else}
use libcap_utils.Connection.{
  Entry, State, Pointer, Bucket, follow, state_of, with_slots, write, set_state, set_seq,
  set_sibling,
}
use libcap_utils.Connection.Keys.{connection_id_cmp}

-- The id of the first slot whose key is the given one.
unfoldable pub id_in : List (Entry × State) → Entry → Option ℕ
unfolding connection_id_cmp
id_in [] e = none
id_in ((key, s) ∷ slots) e =
    let rest = id_in slots e in if connection_id_cmp key e then some s.id else rest

-- The search of the code, with the state that it gives a pointer to.
unfoldable pub id_at : List (Entry × State) → Option ℕ → Option ℕ
id_at slots none = none
id_at slots (some i) = state_of (get_elem? slots i) >>= λ s. some s.id

find_from-suc :
    (same : Entry → Bool) (slots : List (Entry × State)) (i : ℕ)
    → find_from same slots (i + 1) ≡ (find_from same slots i >>= λ j. some (suc j))
unfolding find_from
find_from-suc same [] i = refl
find_from-suc same ((k, s) ∷ slots) i = ground (arith, find_from-suc same slots (i + 1))

id_at-suc :
    (k : Entry) (s : State) (slots : List (Entry × State)) (o : Option ℕ)
    → id_at ((k, s) ∷ slots) (o >>= λ j. some (suc j)) ≡ id_at slots o
unfolding id_at
id_at-suc k s slots none = refl
id_at-suc k s slots (some i) = refl

pub id_in-find :
    (slots : List (Entry × State)) (e : Entry)
    → id_at slots (find_from (λ cur. connection_id_cmp cur e) slots 0) ≡ id_in slots e
unfolding id_in find_from id_at
id_in-find [] e = refl
id_in-find ((k, s) ∷ slots) e = elim (Bool-cases (connection_id_cmp k e)) [
  | inl same ↦ rw (same, id_at) refl
  | inr other ↦
      rw (other, find_from-suc (λ cur. connection_id_cmp cur e) slots 0)
        (id_at-suc k s slots _ ∙ id_in-find slots e)
]

pub id_in-append :
    (xs : List (Entry × State)) (k : Entry) (s : State) (e : Entry)
    → id_in (xs ++ ((k, s) ∷ [])) e
      ≡ or_else (id_in xs e) (if connection_id_cmp k e then some s.id else none)
unfolding id_in
id_in-append [] k s e = refl
id_in-append ((k', s') ∷ xs) k s e = ground (arith, id_in-append xs k s e)

-- A state with the same id in its place changes no search.
pub id_in-set_state :
    (slots : List (Entry × State)) (i : ℕ) (s t : State) (e : Entry)
    → state_of (get_elem? slots i) ≡ some s
    → t.id ≡ s.id
    → id_in (set_state slots i t) e ≡ id_in slots e
unfolding id_in set_state
id_in-set_state [] i s t e h same = refl
id_in-set_state ((k, u) ∷ slots) zero s t e h same = ground (arith, h, same)
id_in-set_state ((k, u) ∷ slots) (suc i) s t e h same =
    ground (arith, id_in-set_state slots i s t e h same)

length-set_state :
    (slots : List (Entry × State)) (i : ℕ) (t : State) → length (set_state slots i t) ≡ length slots
unfolding set_state
length-set_state [] i t = refl
length-set_state ((k, u) ∷ slots) zero t = refl
length-set_state ((k, u) ∷ slots) (suc i) t = ap suc (length-set_state slots i t)

state_of-lt :
    (slots : List (Entry × State)) (i : ℕ)
    → i < length slots
    → (s : State) × (state_of (get_elem? slots i) ≡ some s)
state_of-lt [] i h = absurd (omega arith)
state_of-lt ((k, s) ∷ slots) zero h = (s, refl)
state_of-lt ((k, s) ∷ slots) (suc i) h = state_of-lt slots i (omega arith)

-- A bucket where nothing changed that a search or a put could tell.
pub record IsAlike (b b' : Bucket) : Type 0 where
  pub ids : (e : Entry) → id_in b'.list.slots e ≡ id_in b.list.slots e
  pub length_same : length b'.list.slots ≡ length b.list.slots
  pub capacity_same : b'.list.capacity ≡ b.list.capacity
  pub moves_same : b'.moves ≡ b.moves

-- A pointer that is good.
pub record Points (b : Bucket) (p : Pointer) : Type 0 where
  pub current : p.moves ≡ b.moves
  pub in_use : p.index < length b.list.slots

pub follow-Points :
    (b : Bucket) (p : Pointer)
    → Points b p
    → (s : State) × (follow b p ≡ some s) × (state_of (get_elem? b.list.slots p.index) ≡ some s)
unfolding follow
follow-Points b p h =
    let (s, e) = state_of-lt b.list.slots p.index h.in_use in
    (s, rw ((==_iff p.moves b.moves).1 h.current) e, e)

write-Points :
    (b : Bucket) (p : Pointer) (s t : State)
    → Points b p
    → state_of (get_elem? b.list.slots p.index) ≡ some s
    → t.id ≡ s.id
    → (b' : Bucket) × (write b p t ≡ some b') × IsAlike b b'
unfolding write
write-Points b p s t h e same = (
  with_slots b (set_state b.list.slots p.index t),
  rw ((==_iff p.moves b.moves).1 h.current) refl,
  record {
    ids = λ k. id_in-set_state b.list.slots p.index s t k e same;
    length_same = length-set_state b.list.slots p.index t;
    capacity_same = refl;
    moves_same = refl;
  },
)

pub set_seq-Points :
    (b : Bucket) (p : Pointer) (seq : ℕ)
    → Points b p
    → (b' : Bucket) × (set_seq b p seq ≡ some b') × IsAlike b b'
unfolding set_seq
set_seq-Points b p seq h =
    let (s, at, e) = follow-Points b p h in
    let (b', done, alike) = write-Points b p s (record s { seq = seq }) h e refl in
    (b', rw at done, alike)

pub set_sibling-Points :
    (b : Bucket) (p q : Pointer)
    → Points b p
    → (b' : Bucket) × (set_sibling b p q ≡ some b') × IsAlike b b'
unfolding set_sibling
set_sibling-Points b p q h =
    let (s, at, e) = follow-Points b p h in
    let (b', done, alike) = write-Points b p s (record s { sibling = some q }) h e refl in
    (b', rw at done, alike)

pub Points-IsAlike : {b b' : Bucket} (p : Pointer) → IsAlike b b' → Points b p → Points b' p
Points-IsAlike p alike h = record {
  current = omega (arith, h.current, alike.moves_same);
  in_use = omega (arith, h.in_use, alike.length_same);
}
