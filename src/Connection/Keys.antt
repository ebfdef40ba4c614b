-- ===== src/Connection/Keys.antt =====
-- The keys of a packet in both directions, its bucket, and its fields of TCP, in
-- src/packet/connection_id.c.
use libcap_utils.Prelude.{
  ℕ, ◌+◌, ◌/◌, ◌%◌, Bool, Option, none, some, ◌&&◌, ◌==◌, Memory, byte_at, le32, bit_xor,
}
use libcap_utils.Packet.{ip_src, ip_dst, Ports, find_tcp_header, find_udp_header}
use libcap_utils.Connection.{protocol_ipv4, Entry}

abbrev pub bucket_count : ℕ
bucket_count = 256

-- `ipv4_forward` and `ipv4_backward`, for the header at `ip`
unfoldable pub ipv4_forward : Memory → ℕ → ℕ → ℕ → Entry
ipv4_forward m ip sport dport = record {
  protocol = protocol_ipv4;
  finished = 0;
  src = ip_src m ip;
  dst = ip_dst m ip;
  sport = sport;
  dport = dport;
}

unfoldable pub ipv4_backward : Memory → ℕ → ℕ → ℕ → Entry
ipv4_backward m ip sport dport = record {
  protocol = protocol_ipv4;
  finished = 0;
  src = ip_dst m ip;
  dst = ip_src m ip;
  sport = dport;
  dport = sport;
}

-- `connection_id_cmp` returns 0
unfoldable pub connection_id_cmp : Entry → Entry → Bool
connection_id_cmp cur key =
    cur.protocol == key.protocol
    && cur.finished == key.finished
    && cur.src == key.src
    && cur.dst == key.dst
    && cur.sport == key.sport
    && cur.dport == key.dport

-- The keys of both directions. At most one of the two searches finds a header.
unfoldable pub ipv4_connection_id : Memory → ℕ → Option (Entry × Entry)
unfolding ipv4_forward ipv4_backward find_tcp_header find_udp_header
ipv4_connection_id m ip =
    let entries : Ports → Entry × Entry =
      λ p. (ipv4_forward m ip p.source p.dest, ipv4_backward m ip p.source p.dest) in
    elim (find_tcp_header m (some ip)) [
      | some tcp ↦ some (entries tcp)
      | none ↦ elim (find_udp_header m (some ip)) [ some udp ↦ some (entries udp) | none ↦ none ]
    ]

unfoldable pub ipv4_bucket_select : Memory → ℕ → ℕ
ipv4_bucket_select m ip = bit_xor (ip_src m ip) (ip_dst m ip) % bucket_count

-- `tcp->seq`, `tcp->syn` and `tcp->ack` of the header at an offset
abbrev pub tcp_seq : Memory → ℕ → ℕ
tcp_seq m tcp = le32 m (tcp + 4)

abbrev pub tcp_syn : Memory → ℕ → Bool
tcp_syn m tcp = byte_at m (tcp + 13) / 2 % 2 == 1

abbrev pub tcp_ack : Memory → ℕ → Bool
tcp_ack m tcp = byte_at m (tcp + 13) / 16 % 2 == 1

-- "try to get a sequence number"
unfoldable pub seq_of : Memory → Option ℕ → ℕ
unfolding find_tcp_header
seq_of m ip = elim (find_tcp_header m ip) [ none ↦ 0 | some tcp ↦ tcp_seq m tcp.header ]
