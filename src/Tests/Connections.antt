-- ===== src/Tests/Connections.antt =====
-- The theorems on the ids of connections at concrete packets.
use libcap_utils.Prelude.{
  ℕ, zero, suc, ◌+◌, ◌≡◌, refl, false, none, some, List, [], ◌∷◌, ◌++◌, replicate, arith, Memory,
  memory_of, be16, le32,
}
use libcap_utils.SimpleList.{slist_init, slist_alloc, slist_find, find_from, slist_put}
use libcap_utils.Packet.{find_loop, find_tcp_header, find_ipproto_header}
use libcap_utils.Connection.{Entry, Bucket, protocol_ipv4}
use libcap_utils.Connection.Keys.{connection_id_cmp}
use libcap_utils.Connection.Table.{Table, create, connection_id_search}
use libcap_utils.Connection.Numbers.{key}
use libcap_utils.Connection.Runs.{calls}
use libcap_utils.Connection.Stale.{connection_id_search_stale}
use libcap_utils.Connection.Slots.{id_in}
use libcap_utils.Connection.Opening.{or_id}
use libcap_utils.Connection.Handshake.{IsLinked, connection_id_search-reopened}
use libcap_utils.Connection.{finish_key}
use libcap_utils.Tests.{plain, ipv4_type}

-- From 10.0.0.2 to 10.0.0.1.
abbrev reply_header : ℕ → List ℕ
reply_header proto =
    0x45 ∷ 0 ∷ 0 ∷ 44 ∷ 0 ∷ 1 ∷ 0 ∷ 0 ∷ 64 ∷ proto ∷ 0 ∷ 0 ∷ 10 ∷ 0 ∷ 0 ∷ 2 ∷ 10 ∷ 0 ∷ 0 ∷ 1 ∷ []

-- The answer to `plain`, a SYN with an ACK, and a datagram from the port of the answer.
abbrev reply : Memory
reply = memory_of (
    replicate 12 0
    ++ ipv4_type
    ++ reply_header 6
    ++ (0 ∷ 80 ∷ 3 ∷ 232 ∷ 0 ∷ 0 ∷ 0 ∷ 9 ∷ 0 ∷ 0 ∷ 0 ∷ 2 ∷ 0x50 ∷ 0x12 ∷ []))

abbrev datagram : Memory
datagram =
    memory_of (replicate 12 0 ++ ipv4_type ++ reply_header 17 ++ (0 ∷ 80 ∷ 0 ∷ 9 ∷ 0 ∷ 8 ∷ []))

abbrev trace : List Memory
trace = plain ∷ datagram ∷ reply ∷ []

abbrev statics : Table
statics = record {
  initialized = false;
  buckets = λ i. record { list = record { slots = []; capacity = 0 }; moves = 0 };
  counter = 0;
}

-- The calls as they are.
three_calls : calls 1 statics trace ≡ some (1 ∷ 2 ∷ 1 ∷ [])
unfolding calls find_loop be16 le32 find_ipproto_header
three_calls = refl

-- Connections from port 1000 on, as many as are put.
abbrev from_port : ℕ → Entry
from_port n = record {
  protocol = protocol_ipv4;
  finished = 0;
  src = 0x0100000a;
  dst = 0x0200000a;
  sport = 1000 + n;
  dport = 80;
}

abbrev to_port : ℕ → Entry
to_port n = record {
  protocol = protocol_ipv4;
  finished = 0;
  src = 0x0200000a;
  dst = 0x0100000a;
  sport = 80;
  dport = 1000 + n;
}

-- A bucket of 32 slots with so many connections, which has grown for the seventeenth.
abbrev filled : ℕ → Bucket
unfolding create slist_init
filled zero = record { list = slist_init 32; moves = 0 }
filled (suc n) = elim (create n (filled n) 7 (from_port n) (to_port n)) [
  | none ↦ filled n
  | some (_, b, _) ↦ b
]

-- The first of them, and the SYN of `plain` for it.
connection_id_search_stale_example :
    connection_id_search 17 (filled 17) plain (some 14) (from_port 0, to_port 0) ≡ none
unfolding filled find_ipproto_header find_tcp_header be16 le32 slist_find find_from
    connection_id_cmp create slist_put slist_alloc
connection_id_search_stale_example =
    connection_id_search_stale 17 (filled 17) plain (some 14) (from_port 0, to_port 0) 0
      (record { seq = 7; entry = 0; sibling = some (record { moves = 0; index = 1 }); id = 1 })
      (record { moves = 0; index = 1 }) (record { header = 34; source = 1000; dest = 80 }) refl refl
      refl (omega arith) refl refl refl (omega arith)

abbrev first_link : IsLinked (filled 1) 0 1
unfolding filled
first_link = record {
  state = record { seq = 7; entry = 0; sibling = some (record { moves = 0; index = 1 }); id = 1 };
  other = record { seq = 7; entry = 1; sibling = some (record { moves = 0; index = 0 }); id = 1 };
  at = refl;
  at_other = refl;
  sibling = refl;
  key = from_port 0;
  back = to_port 0;
  has_key = refl;
  has_back = refl;
}

-- The SYN of `plain` for a connection in a list with room.
connection_id_search-reopened_example :
    (b' : Bucket) × (connection_id_search 1 (filled 1) plain (some 14) (from_port 0, to_port 0)
      ≡ some (2, b', 2))
    × ((e : Entry)
        → id_in b'.list.slots e
          ≡ or_id
              (or_id
                (id_in (finish_key (finish_key (filled 1).list.slots 0) 1) e)
                (from_port 0)
                2
                e)
              (to_port 0)
              2
              e)
unfolding filled find_ipproto_header find_tcp_header be16 le32 slist_find find_from
    connection_id_cmp create slist_put slist_alloc
connection_id_search-reopened_example =
    connection_id_search-reopened 1 (filled 1) plain (some 14) (from_port 0, to_port 0) 0 1
      first_link (record { header = 34; source = 1000; dest = 80 }) refl refl refl refl
      (omega arith) (omega arith) (omega arith)
