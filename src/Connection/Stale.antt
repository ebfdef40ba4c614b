-- ===== src/Connection/Stale.antt =====
-- The pointers between the two directions of a connection, in src/packet/connection_id.c, once the list
-- has grown.
use libcap_utils.Prelude.{
  ℕ, zero, suc, ◌⊎◌, List, [], ◌∷◌, ◌++◌, ◌<◌, ◌≡◌, ◌≢◌, refl, Bool-cases, true, false, Option,
  none, some, inl, inr, ◌==◌, ==_refl, length, ◌>>=◌, get_elem?, arith, Memory,
}
use libcap_utils.SimpleList.{slist_find, slist_put}
use libcap_utils.Packet.{Ports, find_tcp_header}
use libcap_utils.Connection.{
  Entry, State, Pointer, Bucket, state_of, follow, entry_put, entry_of, sibling_entry_of, key_at,
}
use libcap_utils.Connection.Keys.{connection_id_cmp, tcp_syn, tcp_ack, tcp_seq}
use libcap_utils.Connection.Table.{next_id, reopen, connection_id_tcp_syn, connection_id_search}

pub state_of-append :
    (xs ys : List (Entry × State)) (i : ℕ) (s : State)
    → state_of (get_elem? xs i) ≡ some s
    → state_of (get_elem? (xs ++ ys) i) ≡ some s
state_of-append [] ys i s h = cc
state_of-append (y ∷ xs) ys zero s h = h
state_of-append (y ∷ xs) ys (suc i) s h = state_of-append xs ys i s h

-- A list only moves on, and if it stays, so do the states.
entry_put-moves :
    (b : Bucket) (k : Entry) (id : ℕ) (put : Bucket × Pointer)
    → entry_put b k id ≡ some put
    → (b.moves < put.0.moves)
      ⊎ ((b.moves ≡ put.0.moves)
          × (ys : List (Entry × State)) × (put.0.list.slots ≡ b.list.slots ++ ys))
unfolding entry_put slist_put
entry_put-moves b k id put h =
    let fresh : State = record { seq = 0; entry = length b.list.slots; sibling = none; id = id } in
    elim (Bool-cases (length b.list.slots == b.list.capacity)) [
      | inl full ↦ inl (ground (arith, h, full))
      | inr room ↦ inr (ground (arith, h, room), (k, fresh) ∷ [], ground (arith, h, room))
    ]

-- A state that was there before a put is still there, or its pointer is good no more.
follow-put :
    (b : Bucket) (k : Entry) (id : ℕ) (put : Bucket × Pointer) (p : Pointer) (s : State)
    → entry_put b k id ≡ some put
    → follow b p ≡ some s
    → (follow put.0 p ≡ none) ⊎ (follow put.0 p ≡ some s)
unfolding follow
follow-put b k id put p s h at = elim (Bool-cases (p.moves == put.0.moves)) [
  | inr gone ↦ inl (rw gone refl)
  | inl here ↦ elim (entry_put-moves b k id put h) [
    | inl moved ↦ absurd (ground (arith, moved, here, at))
    | inr (stays, ys, slots) ↦
        let current : (p.moves == b.moves) ≡ true = ground (arith, at) in
        let state = state_of-append b.list.slots ys p.index s (rw current at at) in
        inr (rw (follow, here, slots) state)
  ]
]

-- The pointer to the other direction is of the list before it moved.
sibling_entry_of_stale :
    (b : Bucket) (p : Pointer) (s : State) (q : Pointer)
    → follow b p ≡ some s
    → s.sibling ≡ some q
    → q.moves < b.moves
    → sibling_entry_of b p ≡ none
unfolding sibling_entry_of entry_of follow
sibling_entry_of_stale b p s q at sibling old =
    let gone : (q.moves == b.moves) ≡ false = ground (arith, old) in
    rw (sibling_entry_of, at, sibling, entry_of, gone) refl

-- So it is behind the first put.
sibling_entry_of-put :
    (b : Bucket) (k : Entry) (id : ℕ) (put : Bucket × Pointer) (p : Pointer) (s : State)
    (q : Pointer)
    → entry_put b k id ≡ some put
    → follow b p ≡ some s
    → s.sibling ≡ some q
    → q.moves < b.moves
    → sibling_entry_of put.0 p ≡ none
unfolding sibling_entry_of
sibling_entry_of-put b k id put p s q h at sibling old = elim (follow-put b k id put p s h at) [
  | inl gone ↦ rw (sibling_entry_of, gone) refl
  | inr kept ↦
      let later : q.moves < put.0.moves = elim (entry_put-moves b k id put h) [
        | inl moved ↦ omega (arith, moved, old)
        | inr (stays, _, _) ↦ omega (arith, stays, old)
      ] in
      sibling_entry_of_stale put.0 p s q kept sibling later
]

-- A chain has no result if the steps behind the first one have none.
>>=-none :
    {A B : Type 0} (m : Option A) (f : A → Option B)
    → ((a : A) → m ≡ some a → f a ≡ none)
    → (m >>= f) ≡ none
>>=-none none f h = refl
>>=-none (some a) f h = h a refl

reopen_stale :
    (counter : ℕ) (b : Bucket) (seq : ℕ) (p : Pointer) (s : State) (q : Pointer)
    → follow b p ≡ some s
    → s.sibling ≡ some q
    → q.moves < b.moves
    → reopen counter b seq p ≡ none
unfolding reopen
reopen_stale counter b seq p s q at sibling old = >>=-none (next_id counter) _ λ id _.
    >>=-none (entry_of b p) _ λ entry _. >>=-none (key_at b entry) _ λ key _.
      >>=-none (entry_put b key id) _
        λ put h. rw (sibling_entry_of-put b key id put p s q h at sibling old) refl

-- A packet that opens a TCP connection between endpoints that have one, with a new sequence number, has
-- no defined result if the list has grown since that one was put: the pointer to the state of its other
-- direction is into memory that `realloc` gave back.
pub connection_id_search_stale :
    (counter : ℕ) (b : Bucket) (m : Memory) (ip : Option ℕ) (entries : Entry × Entry) (i : ℕ)
    (s : State) (q : Pointer) (tcp : Ports)
    → slist_find b.list (λ cur. connection_id_cmp cur entries.0) ≡ some i
    → state_of (get_elem? b.list.slots i) ≡ some s
    → s.sibling ≡ some q
    → q.moves < b.moves
    → find_tcp_header m ip ≡ some tcp
    → tcp_syn m tcp.header ≡ true
    → tcp_ack m tcp.header ≡ false
    → s.seq ≢ tcp_seq m tcp.header
    → connection_id_search counter b m ip entries ≡ none
unfolding connection_id_search connection_id_tcp_syn
connection_id_search_stale counter b m ip entries i s q tcp found here sibling old head syn ack
      new =
    let p : Pointer = record { moves = b.moves; index = i } in
    let at : follow b p ≡ some s = rw (follow, ==_refl b.moves) here in
    let other : (s.seq == tcp_seq m tcp.header) ≡ false = ground (arith, new) in
    rw
      (
        connection_id_search,
        found,
        connection_id_tcp_syn,
        head,
        reopen_stale counter b (tcp_seq m tcp.header) p s q at sibling old,
        syn,
        ack,
        at,
        other,
      )
      refl
