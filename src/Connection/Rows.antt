-- ===== src/Connection/Rows.antt =====
-- The steps of src/packet/connection_id.c on the slots of a bucket, written out.
use libcap_utils.Prelude.{
  ℕ, zero, suc, ◌<◌, ◌≡◌, refl, ap, none, some, List, [], ◌∷◌, ◌++◌, ==_refl, length, append_assoc,
  get_elem?, arith,
}
use libcap_utils.SimpleList.{slist_put}
use libcap_utils.Connection.{
  Entry, State, Pointer, Bucket, state_of, key_of, follow, set_state, finish_key, write, entry_put,
  set_seq, set_sibling, entry_of, sibling_entry_of,
}

abbrev pub Slots : Type 0
Slots = List (Entry × State)

-- A bucket with these slots.
abbrev pub bucket : Slots → ℕ → ℕ → Bucket
bucket slots capacity moves = record {
  list = record { slots = slots; capacity = capacity };
  moves = moves;
}

pub key_of-append :
    (xs ys : Slots) (i : ℕ) (k : Entry)
    → key_of (get_elem? xs i) ≡ some k
    → key_of (get_elem? (xs ++ ys) i) ≡ some k
key_of-append [] ys i k h = cc
key_of-append (x ∷ xs) ys zero k h = h
key_of-append (x ∷ xs) ys (suc i) k h = key_of-append xs ys i k h

set_state-last :
    (xs ys : Slots) (k : Entry) (s t : State)
    → set_state (xs ++ ((k, s) ∷ ys)) (length xs) t ≡ xs ++ ((k, t) ∷ ys)
unfolding set_state
set_state-last [] ys k s t = refl
set_state-last (x ∷ xs) ys k s t = ap (◌∷◌ x) (set_state-last xs ys k s t)

pub get_elem?-last :
    (xs ys : Slots) (k : Entry) (s : State)
    → get_elem? (xs ++ ((k, s) ∷ ys)) (length xs) ≡ some (k, s)
get_elem?-last [] ys k s = refl
get_elem?-last (x ∷ xs) ys k s = get_elem?-last xs ys k s

pub finish_key-append :
    (xs ys : Slots) (i : ℕ) (k : Entry)
    → key_of (get_elem? xs i) ≡ some k
    → finish_key (xs ++ ys) i ≡ finish_key xs i ++ ys
unfolding finish_key
finish_key-append [] ys i k h = cc
finish_key-append ((e, s) ∷ xs) ys zero k h = refl
finish_key-append ((e, s) ∷ xs) ys (suc i) k h = ap (◌∷◌ (e, s)) (finish_key-append xs ys i k h)

pub state_of-finish_key :
    (xs : Slots) (i j : ℕ) → state_of (get_elem? (finish_key xs i) j) ≡ state_of (get_elem? xs j)
unfolding finish_key
state_of-finish_key [] i j = refl
state_of-finish_key ((e, s) ∷ xs) zero zero = refl
state_of-finish_key ((e, s) ∷ xs) zero (suc j) = refl
state_of-finish_key ((e, s) ∷ xs) (suc i) zero = refl
state_of-finish_key ((e, s) ∷ xs) (suc i) (suc j) = state_of-finish_key xs i j

-- The key that is finished is there.
pub key_of-finish_key :
    (xs : Slots) (i j : ℕ) (k : Entry)
    → key_of (get_elem? xs j) ≡ some k
    → (k' : Entry) × (key_of (get_elem? (finish_key xs i) j) ≡ some k')
unfolding finish_key
key_of-finish_key [] i j k h = cc
key_of-finish_key ((e, s) ∷ xs) zero zero k h = (_, refl)
key_of-finish_key ((e, s) ∷ xs) zero (suc j) k h = (k, h)
key_of-finish_key ((e, s) ∷ xs) (suc i) zero k h = (k, h)
key_of-finish_key ((e, s) ∷ xs) (suc i) (suc j) k h = key_of-finish_key xs i j k h

module _ (capacity moves : ℕ) where
  set_seq-last :
      (xs ys : Slots) (k : Entry) (s : State) (seq : ℕ)
      → set_seq
          (bucket (xs ++ ((k, s) ∷ ys)) capacity moves)
          (record { moves = moves; index = length xs })
          seq
        ≡ some (bucket (xs ++ ((k, record s { seq = seq }) ∷ ys)) capacity moves)
  unfolding set_seq
  set_seq-last xs ys k s seq =
      rw
        (
          set_seq,
          follow,
          write,
          ==_refl moves,
          get_elem?-last xs ys k s,
          set_state-last xs ys k s (record s { seq = seq }),
        )
        refl

  set_sibling-last :
      (xs ys : Slots) (k : Entry) (s : State) (q : Pointer)
      → set_sibling
          (bucket (xs ++ ((k, s) ∷ ys)) capacity moves)
          (record { moves = moves; index = length xs })
          q
        ≡ some (bucket (xs ++ ((k, record s { sibling = some q }) ∷ ys)) capacity moves)
  unfolding set_sibling
  set_sibling-last xs ys k s q =
      rw
        (
          set_sibling,
          follow,
          write,
          ==_refl moves,
          get_elem?-last xs ys k s,
          set_state-last xs ys k s (record s { sibling = some q }),
        )
        refl

  pub entry_put-room :
      (xs : Slots) (k : Entry) (id : ℕ)
      → length xs < capacity
      → entry_put (bucket xs capacity moves) k id
        ≡ some (
          bucket
              (xs ++ ((k, record { seq = 0; entry = length xs; sibling = none; id = id }) ∷ []))
              capacity
              moves,
          record { moves = moves; index = length xs },
        )
  unfolding entry_put slist_put
  entry_put-room xs k id room = ground (arith, room)

  pub set_seq-front :
      (xs ys : Slots) (k : Entry) (s : State) (seq : ℕ)
      → set_seq
          (bucket ((xs ++ ((k, s) ∷ [])) ++ ys) capacity moves)
          (record { moves = moves; index = length xs })
          seq
        ≡ some (bucket ((xs ++ ((k, record s { seq = seq }) ∷ [])) ++ ys) capacity moves)
  set_seq-front xs ys k s seq =
      rw (append_assoc xs ((k, s) ∷ []) ys, append_assoc xs ((k, record s { seq = seq }) ∷ []) ys)
        (set_seq-last xs ys k s seq)

  pub set_sibling-front :
      (xs ys : Slots) (k : Entry) (s : State) (q : Pointer)
      → set_sibling
          (bucket ((xs ++ ((k, s) ∷ [])) ++ ys) capacity moves)
          (record { moves = moves; index = length xs })
          q
        ≡ some (bucket ((xs ++ ((k, record s { sibling = some q }) ∷ [])) ++ ys) capacity moves)
  set_sibling-front xs ys k s q =
      rw
        (
          append_assoc xs ((k, s) ∷ []) ys,
          append_assoc xs ((k, record s { sibling = some q }) ∷ []) ys,
        )
        (set_sibling-last xs ys k s q)

  pub set_seq-back :
      (xs : Slots) (k : Entry) (s : State) (seq i : ℕ)
      → i ≡ length xs
      → set_seq
          (bucket (xs ++ ((k, s) ∷ [])) capacity moves)
          (record { moves = moves; index = i })
          seq
        ≡ some (bucket (xs ++ ((k, record s { seq = seq }) ∷ [])) capacity moves)
  set_seq-back xs k s seq i h = rw h (set_seq-last xs [] k s seq)

  pub set_sibling-back :
      (xs : Slots) (k : Entry) (s : State) (q : Pointer) (i : ℕ)
      → i ≡ length xs
      → set_sibling
          (bucket (xs ++ ((k, s) ∷ [])) capacity moves)
          (record { moves = moves; index = i })
          q
        ≡ some (bucket (xs ++ ((k, record s { sibling = some q }) ∷ [])) capacity moves)
  set_sibling-back xs k s q i h = rw h (set_sibling-last xs [] k s q)

  pub entry_of-state :
      (zs : Slots) (i : ℕ) (s : State)
      → state_of (get_elem? zs i) ≡ some s
      → entry_of (bucket zs capacity moves) (record { moves = moves; index = i }) ≡ some s.entry
  unfolding entry_of
  entry_of-state zs i s h = rw (entry_of, follow, ==_refl moves, h) refl

  pub sibling_entry_of-state :
      (zs : Slots) (i j : ℕ) (s s' : State)
      → state_of (get_elem? zs i) ≡ some s
      → s.sibling ≡ some (record { moves = moves; index = j })
      → state_of (get_elem? zs j) ≡ some s'
      → sibling_entry_of (bucket zs capacity moves) (record { moves = moves; index = i })
        ≡ some s'.entry
  unfolding sibling_entry_of
  sibling_entry_of-state zs i j s s' h sibling h' =
      rw (sibling_entry_of, follow, ==_refl moves, h, sibling, entry_of-state zs j s' h') refl
