-- ===== src/Connection/Search.antt =====
-- `connection_id_search` of src/packet/connection_id.c, for a key that is in the bucket and for one
-- that is not.
use libcap_utils.Prelude.{
  ℕ, ◌+◌, ◌≡◌, refl, Bool, Bool-cases, false, not, ◌&&◌, Option, Option-cases, none, some, List, [],
  ◌∷◌, inl, inr, ==_refl, get_elem?, arith, ◌∙◌, Memory,
}
use libcap_utils.SimpleList.{find_from, slist_find}
use libcap_utils.Packet.{find_tcp_header}
use libcap_utils.Connection.{Entry, State, Pointer, Bucket, follow, state_of}
use libcap_utils.Connection.Keys.{connection_id_cmp, tcp_syn, tcp_ack, seq_of}
use libcap_utils.Connection.Table.{connection_id_tcp_syn, create, connection_id_search}
use libcap_utils.Connection.Slots.{id_in, id_at, id_in-find}

-- Whether the packet opens a TCP connection: a SYN without an ACK.
unfoldable pub starts : Memory → Option ℕ → Bool
unfolding find_tcp_header
starts m ip = elim (find_tcp_header m ip) [
  | none ↦ false
  | some tcp ↦ tcp_syn m tcp.header && not (tcp_ack m tcp.header)
]

find_from-none :
    (slots : List (Entry × State)) (e : Entry) (i : ℕ)
    → id_in slots e ≡ none
    → find_from (λ cur. connection_id_cmp cur e) slots i ≡ none
unfolding id_in find_from
find_from-none [] e i h = refl
find_from-none ((k, s) ∷ slots) e i h = elim (Bool-cases (connection_id_cmp k e)) [
  | inl same ↦ absurd (ground (arith, h, same))
  | inr other ↦ rw other (find_from-none slots e (i + 1) (rw other at h))
]

-- A packet that opens no connection leaves the states alone.
connection_id_tcp_syn-quiet :
    (counter : ℕ) (b : Bucket) (m : Memory) (ip : Option ℕ) (p : Pointer)
    → starts m ip ≡ false
    → connection_id_tcp_syn counter b m ip p ≡ some (counter, b, p)
unfolding connection_id_tcp_syn starts
connection_id_tcp_syn-quiet counter b m ip p h = elim (Option-cases (find_tcp_header m ip)) [
  | inl missed ↦ rw (connection_id_tcp_syn, missed) refl
  | inr (tcp, at) ↦ rw (connection_id_tcp_syn, at, (rw (starts, at) at h)) refl
]

id_at-some :
    (slots : List (Entry × State)) (o : Option ℕ) (n : ℕ)
    → id_at slots o ≡ some n
    → (i : ℕ) × (s : State) × (o ≡ some i) × (state_of (get_elem? slots i) ≡ some s) × (s.id ≡ n)
unfolding id_at
id_at-some slots none n h = cc
id_at-some slots (some i) n h = elim (Option-cases (state_of (get_elem? slots i))) [
  | inl missed ↦ absurd (ground (arith, h, missed))
  | inr (s, at) ↦ (i, s, refl, at, ground (arith, h, at))
]

pub connection_id_search-known :
    (counter : ℕ) (b : Bucket) (m : Memory) (ip : Option ℕ) (forward backward : Entry) (n : ℕ)
    → id_in b.list.slots forward ≡ some n
    → starts m ip ≡ false
    → connection_id_search counter b m ip (forward, backward) ≡ some (counter, b, n)
unfolding connection_id_search slist_find follow id_at
connection_id_search-known counter b m ip forward backward n known quiet =
    let (i, s, at, here, is_n) =
      id_at-some b.list.slots (slist_find b.list (λ cur. connection_id_cmp cur forward)) n
        (id_in-find b.list.slots forward ∙ known) in
    rw
      (
        connection_id_search,
        at,
        connection_id_tcp_syn-quiet counter b m ip (record { moves = b.moves; index = i }) quiet,
        follow,
        ==_refl b.moves,
        here,
        is_n,
      )
      refl

pub connection_id_search-new :
    (counter : ℕ) (b : Bucket) (m : Memory) (ip : Option ℕ) (forward backward : Entry)
    → id_in b.list.slots forward ≡ none
    → connection_id_search counter b m ip (forward, backward)
      ≡ create counter b (seq_of m ip) forward backward
unfolding connection_id_search slist_find
connection_id_search-new counter b m ip forward backward h =
    rw (connection_id_search, slist_find, find_from-none b.list.slots forward 0 h) refl
