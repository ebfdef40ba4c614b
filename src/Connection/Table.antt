-- ===== src/Connection/Table.antt =====
-- The table of connections of src/packet/connection_id.c, and `connection_id`.
use libcap_utils.Prelude.{
  ℕ, ◌+◌, ◌^◌, Bool, true, not, Option, none, some, ◌&&◌, ◌==◌, ltb, if◌then◌else◌, ◌>>=◌, Memory,
}
use libcap_utils.SimpleList.{slist_init, slist_find}
use libcap_utils.Packet.{found, absent, endless, find_ipv4_header, find_tcp_header}
use libcap_utils.Connection.{
  Entry, Pointer, Bucket, follow, key_at, finish, entry_put, set_seq, set_sibling, entry_of,
  sibling_entry_of,
}
use libcap_utils.Connection.Keys.{
  connection_id_cmp, ipv4_connection_id, ipv4_bucket_select, tcp_seq, tcp_syn, tcp_ack, seq_of,
}

-- `initialized`, `list`, a bucket for each number below `bucket_count`, and `counter`
pub record Table : Type 0 where
  pub initialized : Bool
  pub buckets : ℕ → Bucket
  pub counter : ℕ

-- What the first call does to the lists.
unfoldable pub initialize : Table → Table
unfolding slist_init
initialize t = if t.initialized then t else record t {
  initialized = true;
  buckets = λ (i : ℕ). record { list = slist_init 32; moves = 0 };
}

-- `++counter`, which has no meaning behind the greatest int.
unfoldable pub next_id : ℕ → Option ℕ
next_id counter = if ltb (counter + 1) (2 ^ 31) then some (counter + 1) else none

-- "new SYN detected, assume new connection": the counter, the bucket and the new state. The old state
-- is read again after each list was put to.
unfoldable pub reopen : ℕ → Bucket → ℕ → Pointer → Option (ℕ × Bucket × Pointer)
unfolding next_id entry_of sibling_entry_of entry_put set_seq set_sibling finish
reopen counter bucket seq state = do
  id ← next_id counter
  entry ← entry_of bucket state
  key ← key_at bucket entry
  put ← entry_put bucket key id
  entry' ← sibling_entry_of put.0 state
  key' ← key_at put.0 entry'
  put' ← entry_put put.0 key' id
  a ← set_seq put'.0 put.1 seq
  b ← set_sibling a put.1 put'.1
  c ← set_seq b put'.1 seq
  d ← set_sibling c put'.1 put.1
  old ← entry_of d state
  old' ← sibling_entry_of (finish d old) state
  some (id, finish (finish d old) old', put.1)

-- `ip` is what the search for an IPv4 header finds, here and in `connection_id_search`.
unfoldable pub connection_id_tcp_syn :
    ℕ → Bucket → Memory → Option ℕ → Pointer → Option (ℕ × Bucket × Pointer)
unfolding find_tcp_header follow reopen
connection_id_tcp_syn counter bucket m ip state = elim (find_tcp_header m ip) [
  | none ↦ some (counter, bucket, state)
  | some tcp ↦
      let again = follow bucket state >>= λ s.
      if s.seq == tcp_seq m tcp.header
      then some (counter, bucket, state)
      else reopen counter bucket (tcp_seq m tcp.header) state in
      if tcp_syn m tcp.header && not (tcp_ack m tcp.header)
      then again
      else some (counter, bucket, state)
]

-- "create new entry for this connection"
unfoldable pub create : ℕ → Bucket → ℕ → Entry → Entry → Option (ℕ × Bucket × ℕ)
unfolding next_id entry_put set_seq set_sibling
create counter bucket seq forward backward = do
  id ← next_id counter
  put ← entry_put bucket forward id
  a ← set_seq put.0 put.1 seq
  put' ← entry_put a backward id
  b ← set_seq put'.0 put'.1 seq
  c ← set_sibling b put.1 put'.1
  d ← set_sibling c put'.1 put.1
  some (id, d, id)

-- The counter, the bucket and the id.
unfoldable pub connection_id_search :
    ℕ → Bucket → Memory → Option ℕ → Entry × Entry → Option (ℕ × Bucket × ℕ)
unfolding slist_find connection_id_cmp connection_id_tcp_syn follow create seq_of
connection_id_search counter bucket m ip (forward, backward) =
    elim (slist_find bucket.list (λ cur. connection_id_cmp cur forward)) [
      | some i ↦ do
        kept ←
            connection_id_tcp_syn counter bucket m ip (record { moves = bucket.moves; index = i })
        s ← follow kept.1 kept.2
        some (kept.0, kept.1, s.id)
      | none ↦ create counter bucket (seq_of m ip) forward backward
    ]

-- `CONNECTION_ID_NONE`
abbrev pub connection_id_none : ℕ
connection_id_none = 0

abbrev pub update : (ℕ → Bucket) → ℕ → Bucket → ℕ → Bucket
update buckets i bucket j = if j == i then bucket else buckets j

-- The table behind a call and the id, with the number of VLAN tags to follow at most.
unfoldable pub connection_id : ℕ → Memory → Table → Option (Table × ℕ)
unfolding initialize find_ipv4_header ipv4_connection_id ipv4_bucket_select connection_id_search
connection_id fuel m start =
    let t = initialize start in
    elim (find_ipv4_header fuel m) [
      | endless ↦ none
      | absent ↦ some (t, connection_id_none)
      | found ip ↦ elim (ipv4_connection_id m ip) [
        | none ↦ some (t, connection_id_none)
        | some entries ↦ do
          let i = ipv4_bucket_select m ip
          answer ← connection_id_search t.counter (t.buckets i) m (some ip) entries
          some (record t { buckets = update t.buckets i answer.1; counter = answer.0 }, answer.2)
      ]
    ]
