-- ===== src/Connection/Handshake.antt =====
-- A new SYN for a connection in src/packet/connection_id.c, in a list that does not grow for it.
use libcap_utils.Prelude.{
  ℕ, zero, suc, ◌+◌, ◌^◌, ◌<◌, ◌≤◌, ◌≡◌, ◌≢◌, refl, ap, true, false, Option, none, some, [], ◌∷◌,
  ◌++◌, ◌==◌, ==_refl, lt→ltb, length, length-append, append_assoc, get_elem?, arith, sym, ◌∙◌,
  Memory,
}
use libcap_utils.SimpleList.{slist_find}
use libcap_utils.Packet.{Ports, find_tcp_header}
use libcap_utils.Connection.{
  Entry, State, Pointer, Bucket, state_of, key_of, key_at, follow, finish_key, finish,
}
use libcap_utils.Connection.Keys.{connection_id_cmp, tcp_seq, tcp_syn, tcp_ack}
use libcap_utils.Connection.Table.{next_id, reopen, connection_id_tcp_syn, connection_id_search}
use libcap_utils.Connection.Slots.{id_in, id_in-append}
use libcap_utils.Connection.Opening.{or_id}
use libcap_utils.Connection.Stale.{state_of-append}
use libcap_utils.Connection.Rows.{
  Slots, bucket, key_of-append, get_elem?-last, finish_key-append, state_of-finish_key,
  key_of-finish_key, set_seq-front, set_sibling-front, set_seq-back, set_sibling-back,
  entry_put-room, entry_of-state, sibling_entry_of-state,
}

-- A connection in a bucket: both states, at the given indices, point to each other's and have keys.
pub record IsLinked (b : Bucket) (i j : ℕ) : Type 0 where
  pub state : State
  pub other : State
  pub at : state_of (get_elem? b.list.slots i) ≡ some state
  pub at_other : state_of (get_elem? b.list.slots j) ≡ some other
  pub sibling : state.sibling ≡ some (record { moves = b.moves; index = j })
  pub key : Entry
  pub back : Entry
  pub has_key : key_at b state.entry ≡ some key
  pub has_back : key_at b other.entry ≡ some back

-- The bucket behind a handshake: the old keys are finished, and the new ones behind them.
abbrev reopened : (b : Bucket) (i j seq id : ℕ) → IsLinked b i j → Bucket
reopened b i j seq id w =
    let xs = b.list.slots in
    let p : Pointer = record { moves = b.moves; index = length xs } in
    let q : Pointer = record { moves = b.moves; index = length xs + 1 } in
    bucket
      ((finish_key (finish_key xs w.state.entry) w.other.entry
          ++ ((w.key, record { seq = seq; entry = length xs; sibling = some q; id = id }) ∷ []))
        ++ ((w.back, record { seq = seq; entry = length xs + 1; sibling = some p; id = id }) ∷ []))
      b.list.capacity b.moves

module _ (b : Bucket) (i j seq : ℕ) (w : IsLinked b i j) where
  xs : Slots
  xs = b.list.slots

  -- The states are still there behind those that are put, and when keys are finished.
  behind :
      (zs ys ys' : Slots) (n : ℕ) (s : State)
      → state_of (get_elem? zs n) ≡ some s
      → state_of (get_elem? ((zs ++ ys) ++ ys') n) ≡ some s
  behind zs ys ys' n s h = state_of-append (zs ++ ys) ys' n s (state_of-append zs ys n s h)

  finish-both :
      (zs ys ys' : Slots) (n : ℕ) (k : Entry)
      → key_of (get_elem? zs n) ≡ some k
      → finish_key ((zs ++ ys) ++ ys') n ≡ (finish_key zs n ++ ys) ++ ys'
  finish-both zs ys ys' n k h =
      finish_key-append (zs ++ ys) ys' n k (key_of-append zs ys n k h)
      ∙ ap (λ (l : Slots). l ++ ys') (finish_key-append zs ys n k h)

  reopen-reopened :
      (counter : ℕ)
      → counter + 1 < 2 ^ 31
      → length b.list.slots + 2 ≤ b.list.capacity
      → reopen counter b seq (record { moves = b.moves; index = i })
        ≡ some (
          counter + 1,
          reopened b i j seq (counter + 1) w,
          record { moves = b.moves; index = length b.list.slots },
        )
  unfolding reopen next_id finish xs
  reopen-reopened counter bound room =
      let c = b.list.capacity in
      let m = b.moves in
      let id = counter + 1 in
      let s = w.state in
      let s' = w.other in
      let n = length xs in
      let p : Pointer = record { moves = m; index = n } in
      let q : Pointer = record { moves = m; index = n + 1 } in
      let f : State = record { seq = 0; entry = n; sibling = none; id = id } in
      let f' : State = record { seq = 0; entry = n + 1; sibling = none; id = id } in
      let g : State = record { seq = seq; entry = n; sibling = some q; id = id } in
      let g' : State = record { seq = seq; entry = n + 1; sibling = some p; id = id } in
      let len : length (xs ++ ((w.key, f) ∷ [])) ≡ n + 1 = length-append xs _ in
      let len' : n + 1 ≡ length (xs ++ ((w.key, g) ∷ [])) = sym (length-append xs _) in
      let entry = entry_of-state c m xs i s w.at in
      let put = entry_put-room c m xs w.key id (omega (arith, room)) in
      let one = xs ++ ((w.key, f) ∷ []) in
      let sibling =
        sibling_entry_of-state c m one i j s s' (state_of-append xs _ i s w.at) w.sibling
          (state_of-append xs _ j s' w.at_other) in
      let back = key_of-append xs ((w.key, f) ∷ []) s'.entry w.back w.has_back in
      let put' = rw len at (entry_put-room c m one w.back id (omega (arith, len, room))) in
      let set1 = set_seq-front c m xs ((w.back, f') ∷ []) w.key f seq in
      let set2 = set_sibling-front c m xs ((w.back, f') ∷ []) w.key (record f { seq = seq }) q in
      let two = xs ++ ((w.key, g) ∷ []) in
      let set3 = set_seq-back c m two w.back f' seq (n + 1) len' in
      let set4 = set_sibling-back c m two w.back (record f' { seq = seq }) p (n + 1) len' in
      let ys = (w.key, g) ∷ [] in
      let ys' = (w.back, g') ∷ [] in
      let old = entry_of-state c m ((xs ++ ys) ++ ys') i s (behind xs ys ys' i s w.at) in
      let done = finish-both xs ys ys' s.entry w.key w.has_key in
      let zs = finish_key xs s.entry in
      let old' =
        sibling_entry_of-state c m ((zs ++ ys) ++ ys') i j s s'
          (behind zs ys ys' i s (state_of-finish_key xs s.entry i ∙ w.at)) w.sibling
          (behind zs ys ys' j s' (state_of-finish_key xs s.entry j ∙ w.at_other)) in
      let (k', there) = key_of-finish_key xs s.entry s'.entry w.back w.has_back in
      let done' = finish-both zs ys ys' s'.entry k' there in
      rw
        (
          reopen,
          next_id,
          lt→ltb (counter + 1) (2 ^ 31) bound,
          entry,
          w.has_key,
          put,
          sibling,
          back,
          put',
          set1,
          set2,
          set3,
          set4,
          old,
          finish,
          done,
          old',
          done',
        )
        refl

length-finish_key : (zs : Slots) (n : ℕ) → length (finish_key zs n) ≡ length zs
unfolding finish_key
length-finish_key [] n = refl
length-finish_key ((e, s) ∷ zs) zero = refl
length-finish_key ((e, s) ∷ zs) (suc n) = ap suc (length-finish_key zs n)

-- The state that is returned is the first of the new ones.
follow-last :
    (c m n : ℕ) (zs ys : Slots) (k : Entry) (g : State)
    → n ≡ length zs
    → follow (bucket ((zs ++ ((k, g) ∷ [])) ++ ys) c m) (record { moves = m; index = n }) ≡ some g
unfolding follow
follow-last c m n zs ys k g h =
    rw (follow, ==_refl m, h, append_assoc zs ((k, g) ∷ []) ys, get_elem?-last zs ys k g) refl

-- A packet that opens a TCP connection between endpoints that have one, with a new sequence number and
-- in a list with room for two more: it gets the next id, and a search then finds that id for both new
-- keys, if it finds nothing in front of them, where the two old keys are finished.
pub connection_id_search-reopened :
    (counter : ℕ) (b : Bucket) (m : Memory) (ip : Option ℕ) (entries : Entry × Entry) (i j : ℕ)
    (w : IsLinked b i j) (tcp : Ports)
    → slist_find b.list (λ cur. connection_id_cmp cur entries.0) ≡ some i
    → find_tcp_header m ip ≡ some tcp
    → tcp_syn m tcp.header ≡ true
    → tcp_ack m tcp.header ≡ false
    → w.state.seq ≢ tcp_seq m tcp.header
    → counter + 1 < 2 ^ 31
    → length b.list.slots + 2 ≤ b.list.capacity
    → (b' : Bucket) × (connection_id_search counter b m ip entries
        ≡ some (counter + 1, b', counter + 1))
      × ((e : Entry)
          → id_in b'.list.slots e
            ≡ or_id
                (or_id
                  (id_in (finish_key (finish_key b.list.slots w.state.entry) w.other.entry) e)
                  w.key
                  (counter + 1)
                  e)
                w.back
                (counter + 1)
                e)
unfolding connection_id_search connection_id_tcp_syn
connection_id_search-reopened counter b m ip entries i j w tcp found head syn ack new bound room =
    let seq = tcp_seq m tcp.header in
    let id = counter + 1 in
    let zs = finish_key (finish_key b.list.slots w.state.entry) w.other.entry in
    let same : length b.list.slots ≡ length zs = sym (
      length-finish_key (finish_key b.list.slots w.state.entry) w.other.entry
      ∙ length-finish_key b.list.slots w.state.entry) in
    let at : follow b (record { moves = b.moves; index = i }) ≡ some w.state =
      rw (follow, ==_refl b.moves) w.at in
    let other : (w.state.seq == seq) ≡ false = ground (arith, new) in
    (
      reopened b i j seq id w,
      rw
          (
            connection_id_search,
            found,
            connection_id_tcp_syn,
            head,
            reopen-reopened b i j seq w counter bound room,
            syn,
            ack,
            at,
            other,
            follow-last b.list.capacity b.moves (length b.list.slots) zs _ w.key _ same,
          )
          refl,
      λ e.
          id_in-append _ w.back _ e
          ∙ ap (λ (o : Option ℕ). or_id o w.back id e) (id_in-append zs w.key _ e),
    )
