-- ===== src/Connection.antt =====
-- src/packet/connection_id.c: a number for each connection, which its packets have in common. A bucket
-- is a list of src/slist.c. The values of a list are moved when it grows, so a pointer to one is good
-- only until then.
pub mod Slots
pub mod Opening
pub mod Search
pub mod Numbers
pub mod Calls
pub mod Pairs
pub mod Runs
pub mod Stale
pub mod Rows
pub mod Handshake
pub mod Keys
pub mod Table
use libcap_utils.Prelude.{
  ℕ, zero, suc, ◌+◌, ◌/◌, ◌%◌, ◌^◌, Bool, true, false, not, Option, none, some, List, [], ◌∷◌, ◌&&◌,
  ◌==◌, ltb, if◌then◌else◌, ◌>>=◌, length, get_elem?, Memory, byte_at, le32, bit_xor,
}
use libcap_utils.SimpleList.{SimpleList, slist_init, slist_find, slist_put}
use libcap_utils.Packet.{
  found, absent, endless, find_ipv4_header, ip_src, ip_dst, Ports, find_tcp_header, find_udp_header,
}

-- `PROTOCOL_IPV4`
abbrev pub protocol_ipv4 : ℕ
protocol_ipv4 = 11

-- `struct entry`, the key of a connection in one direction
pub record Entry : Type 0 where
  pub protocol : ℕ
  pub finished : ℕ
  pub src : ℕ
  pub dst : ℕ
  pub sport : ℕ
  pub dport : ℕ

-- A pointer to the value at an index, of a list that had grown so many times.
pub record Pointer : Type 0 where
  pub moves : ℕ
  pub index : ℕ

-- `struct state`. The keys are not moved, so `entry` is the index of the key.
pub record State : Type 0 where
  pub seq : ℕ
  pub entry : ℕ
  pub sibling : Option Pointer
  pub id : ℕ

pub record Bucket : Type 0 where
  pub list : SimpleList Entry State
  pub moves : ℕ

abbrev pub state_of : Option (Entry × State) → Option State
state_of none = none
state_of (some (key, state)) = some state

-- What a pointer is to. There is nothing behind one that the list has moved away from.
unfoldable pub follow : Bucket → Pointer → Option State
follow bucket p =
    if p.moves == bucket.moves then state_of (get_elem? bucket.list.slots p.index) else none

-- The key at an index.
abbrev pub key_of : Option (Entry × State) → Option Entry
key_of none = none
key_of (some (key, state)) = some key

abbrev pub key_at : Bucket → ℕ → Option Entry
key_at bucket i = key_of (get_elem? bucket.list.slots i)

-- The slots with a state, or with a key, changed.
unfoldable pub set_state : List (Entry × State) → ℕ → State → List (Entry × State)
set_state [] i s = []
set_state ((key, state) ∷ slots) zero s = (key, s) ∷ slots
set_state ((key, state) ∷ slots) (suc i) s = (key, state) ∷ set_state slots i s

unfoldable pub finish_key : List (Entry × State) → ℕ → List (Entry × State)
finish_key [] i = []
finish_key ((key, state) ∷ slots) zero = (record key { finished = 1 }, state) ∷ slots
finish_key ((key, state) ∷ slots) (suc i) = (key, state) ∷ finish_key slots i

abbrev pub with_slots : Bucket → List (Entry × State) → Bucket
with_slots bucket slots = record bucket { list = record bucket.list { slots = slots } }

-- Writing the state that a pointer is to.
unfoldable pub write : Bucket → Pointer → State → Option Bucket
unfolding set_state
write bucket p s =
    if p.moves == bucket.moves
    then some (with_slots bucket (set_state bucket.list.slots p.index s))
    else none

-- `state->entry->finished = 1`
unfoldable pub finish : Bucket → ℕ → Bucket
unfolding finish_key
finish bucket i = with_slots bucket (finish_key bucket.list.slots i)

-- `entry_put`. A list that is full is moved.
unfoldable pub entry_put : Bucket → Entry → ℕ → Option (Bucket × Pointer)
unfolding slist_put
entry_put bucket key id =
    let full = length bucket.list.slots == bucket.list.capacity in
    let moves = if full then bucket.moves + 1 else bucket.moves in
    let fresh : State = record {
      seq = 0;
      entry = length bucket.list.slots;
      sibling = none;
      id = id;
    } in
    elim (slist_put bucket.list key fresh) [
      | none ↦ none
      | some (list, index) ↦
          some (record { list = list; moves = moves }, record { moves = moves; index = index })
    ]

-- `state->seq = seq` and `state->sibling = sibling`
unfoldable pub set_seq : Bucket → Pointer → ℕ → Option Bucket
unfolding follow write
set_seq bucket state seq = do s ← follow bucket state; write bucket state (record s { seq = seq })

unfoldable pub set_sibling : Bucket → Pointer → Pointer → Option Bucket
unfolding follow write
set_sibling bucket state sibling = do
  s ← follow bucket state
  write bucket state (record s { sibling = some sibling })

-- What `state->entry` is to.
unfoldable pub entry_of : Bucket → Pointer → Option ℕ
unfolding follow
entry_of bucket state = do s ← follow bucket state; some s.entry

-- What `state->sibling->entry` is to.
unfoldable pub sibling_entry_of : Bucket → Pointer → Option ℕ
unfolding follow entry_of
sibling_entry_of bucket state = do
  s ← follow bucket state
  sibling ← s.sibling
  entry_of bucket sibling
