-- ===== src/Connection/Opening.antt =====
-- `create` of src/packet/connection_id.c: both directions of a new connection are put into a bucket.
use libcap_utils.Prelude.{
  ℕ, ◌+◌, ◌%◌, ◌^◌, ◌<◌, ◌≤◌, ◌≡◌, refl, ap, Bool, Option, none, some, [], ◌∷◌, ◌++◌, length,
  length-append, ◌==◌, lt→ltb, if◌then◌else◌, arith, sym, ◌∙◌,
}
use libcap_utils.SimpleList.{SimpleList, slist_alloc, slist_put}
use libcap_utils.SimpleList.Laws.{IsAllocated, or_else}
use libcap_utils.Connection.{Entry, State, Pointer, Bucket, entry_put, set_seq}
use libcap_utils.Connection.Keys.{connection_id_cmp}
use libcap_utils.Connection.Table.{next_id, create}
use libcap_utils.Connection.Slots.{
  id_in, id_in-append, Points, Points-IsAlike, IsAlike, set_seq-Points, set_sibling-Points,
}

-- The first answer, or the id if one of the two keys is the given one.
abbrev pub or_id : Option ℕ → Entry → ℕ → Entry → Option ℕ
or_id o k id e = or_else o (if connection_id_cmp k e then some id else none)

-- What `entry_put` does, for a bucket with some room.
record IsPut (b : Bucket) (k : Entry) (id : ℕ) (b' : Bucket) (p : Pointer) : Type 0 where
  points : Points b' p
  longer : length b'.list.slots ≡ length b.list.slots + 1
  ids : (e : Entry) → id_in b'.list.slots e ≡ or_id (id_in b.list.slots e) k id e
  capacity : b'.list.capacity ≡ (
      if length b.list.slots == b.list.capacity
      then b.list.capacity + b.list.capacity
      else b.list.capacity)
  moves : b'.moves ≡ (if length b.list.slots == b.list.capacity then b.moves + 1 else b.moves)

entry_put-IsPut :
    (b : Bucket) (k : Entry) (id : ℕ)
    → IsAllocated b.list
    → (b' : Bucket) × (p : Pointer) × (entry_put b k id ≡ some (b', p)) × IsPut b k id b' p
unfolding entry_put slist_put slist_alloc
entry_put-IsPut b k id w =
    let fresh : State = record { seq = 0; entry = length b.list.slots; sibling = none; id = id } in
    let full : Bool = length b.list.slots == b.list.capacity in
    let list : SimpleList Entry State = record {
      slots = b.list.slots ++ ((k, fresh) ∷ []);
      capacity = if full then b.list.capacity + b.list.capacity else b.list.capacity;
    } in
    let moves : ℕ = if full then b.moves + 1 else b.moves in
    let len = length-append b.list.slots ((k, fresh) ∷ []) in
    let longer : length list.slots ≡ length b.list.slots + 1 = omega (arith, len) in
    (
      record { list = list; moves = moves },
      record { moves = moves; index = length b.list.slots },
      ground (arith, w.fits, w.some_room),
      record {
        points = record { current = refl; in_use = omega (arith, longer) };
        longer = longer;
        ids = id_in-append b.list.slots k fresh;
        capacity = refl;
        moves = refl;
      },
    )

-- The slots come in pairs, so a list is never moved between the two directions of a connection.
pub record IsPaired (b : Bucket) : Type 0 where
  pub fits : length b.list.slots ≤ b.list.capacity
  pub some_room : 1 ≤ b.list.capacity
  pub slots_even : length b.list.slots % 2 ≡ 0
  pub capacity_even : b.list.capacity % 2 ≡ 0

-- Writing the state that was put.
IsPut-IsAlike :
    {b b' b'' : Bucket} {k : Entry} {id : ℕ} {p : Pointer}
    → IsPut b k id b' p
    → IsAlike b' b''
    → IsPut b k id b'' p
IsPut-IsAlike {p = p} put alike = record {
  points = Points-IsAlike p alike put.points;
  longer = alike.length_same ∙ put.longer;
  ids = λ e. alike.ids e ∙ put.ids e;
  capacity = alike.capacity_same ∙ put.capacity;
  moves = alike.moves_same ∙ put.moves;
}

entry_put-set_seq :
    (b : Bucket) (k : Entry) (id seq : ℕ)
    → IsAllocated b.list
    → (b' : Bucket) × (p : Pointer) × (a : Bucket) × (entry_put b k id ≡ some (b', p))
      × (set_seq b' p seq ≡ some a)
      × IsPut b k id a p
entry_put-set_seq b k id seq w =
    let (b', p, put, is_put) = entry_put-IsPut b k id w in
    let (a, set, alike) = set_seq-Points b' p seq is_put.points in
    (b', p, a, put, set, IsPut-IsAlike is_put alike)

IsPut-IsAllocated :
    (b a : Bucket) (k : Entry) (id : ℕ) (p : Pointer)
    → IsPaired b
    → IsPut b k id a p
    → IsAllocated a.list
IsPut-IsAllocated b a k id p w put = record {
  fits = ground (arith, w.fits, w.some_room, put.longer, put.capacity);
  some_room = ground (arith, w.some_room, put.capacity);
}

-- The second of a pair is put into a list that is not full.
IsPut-moves :
    (b a d : Bucket) (k k' : Entry) (id : ℕ) (p q : Pointer)
    → IsPaired b
    → IsPut b k id a p
    → IsPut a k' id d q
    → (d.moves ≡ a.moves) × (d.list.capacity ≡ a.list.capacity)
IsPut-moves b a d k k' id p q w put put' = (
  ground (arith, w.slots_even, w.capacity_even, put.longer, put.capacity, put'.moves),
  ground (arith, w.slots_even, w.capacity_even, put.longer, put.capacity, put'.capacity),
)

IsPut-IsPaired :
    (b a d : Bucket) (k k' : Entry) (id : ℕ) (p q : Pointer)
    → IsPaired b
    → IsPut b k id a p
    → IsPut a k' id d q
    → IsPaired d
IsPut-IsPaired b a d k k' id p q w put put' =
    let (_, same) = IsPut-moves b a d k k' id p q w put put' in
    record {
      fits = ground (
        arith, w.fits, w.some_room, w.slots_even, w.capacity_even, put.longer, put.capacity,
        put'.longer, same,
      );
      some_room = ground (arith, w.some_room, put.capacity, same);
      slots_even = omega (arith, w.slots_even, put.longer, put'.longer);
      capacity_even = ground (arith, w.capacity_even, put.capacity, same);
    }

IsPaired-IsAlike : {b b' : Bucket} → IsAlike b b' → IsPaired b → IsPaired b'
IsPaired-IsAlike alike w =
    let l = alike.length_same in
    let c = alike.capacity_same in
    record {
      fits = omega (arith, w.fits, l, c);
      some_room = omega (arith, w.some_room, c);
      slots_even = omega (arith, w.slots_even, l);
      capacity_even = omega (arith, w.capacity_even, c);
    }

-- A new connection in a bucket: its id is the next one, and a search finds what it found before, or
-- the new id for a key of either direction.
pub create_lem :
    (counter : ℕ) (b : Bucket) (seq : ℕ) (forward backward : Entry)
    → IsPaired b
    → counter + 1 < 2 ^ 31
    → (b' : Bucket) × (create counter b seq forward backward ≡ some (counter + 1, b', counter + 1))
      × IsPaired b'
      × ((e : Entry)
          → id_in b'.list.slots e
            ≡ or_id (or_id (id_in b.list.slots e) forward (counter + 1) e) backward (counter + 1) e)
unfolding create next_id
create_lem counter b seq forward backward w h =
    let id = counter + 1 in
    let (b1, p, a, put, set, first) =
      entry_put-set_seq b forward id seq (record { fits = w.fits; some_room = w.some_room }) in
    let room = IsPut-IsAllocated b a forward id p w first in
    let (b2, q, b3, put', set', second) = entry_put-set_seq a backward id seq room in
    let (still, _) = IsPut-moves b a b3 forward backward id p q w first second in
    let here : Points b3 p = record {
      current = first.points.current ∙ sym still;
      in_use = omega (arith, first.points.in_use, second.longer);
    } in
    let (b4, link, like4) = set_sibling-Points b3 p q here in
    let there = Points-IsAlike q like4 second.points in
    let (b5, link', like5) = set_sibling-Points b4 q p there in
    let paired = IsPut-IsPaired b a b3 forward backward id p q w first second in
    (
      b5,
      rw (lt→ltb (counter + 1) (2 ^ 31) h, put, set, put', set', link, link') refl,
      IsPaired-IsAlike like5 (IsPaired-IsAlike like4 paired),
      λ e.
          like5.ids e
          ∙ like4.ids e
          ∙ second.ids e
          ∙ ap (λ (o : Option ℕ). or_id o backward id e) (first.ids e),
    )
