-- ===== src/Marker.antt =====
-- src/marker.c: markers of experiments, which are sent as UDP packets, and fallback/be64toh.c.
pub mod Laws
use libcap_utils.Prelude.{
  ℕ, ◌+◌, ◌*◌, ◌/◌, ◌%◌, ◌^◌, Bool, Option, none, some, Memory, byte_at, be16, be32, le32, swap32,
  ◌==◌, ◌&&◌, ◌||◌, if◌then◌else◌,
}
use libcap_utils.Packet.{Ports, Search, found, absent, endless, find_ipv4_header, find_udp_header}

-- `union bits`: the two 32-bit words of a 64-bit word, the first one the lower.
abbrev pub word_low : ℕ → ℕ
word_low d = d % 2 ^ 32

abbrev pub word_high : ℕ → ℕ
word_high d = d / 2 ^ 32 % 2 ^ 32

unfoldable pub int_htobe64 : ℕ → ℕ
int_htobe64 host = swap32 (word_high host) + 2 ^ 32 * swap32 (word_low host)

unfoldable pub int_be64toh : ℕ → ℕ
int_be64toh big = swap32 (word_high big) + 2 ^ 32 * swap32 (word_low big)

-- `struct marker` in host order, without the comment at its end, which is not copied
pub record Marker : Type 0 where
  pub magic : ℕ
  pub version : ℕ
  pub flags : ℕ
  pub reserved : ℕ
  pub exp_id : ℕ
  pub run_id : ℕ
  pub key_id : ℕ
  pub seq_num : ℕ
  pub timestamp : ℕ

abbrev pub le64 : Memory → ℕ → ℕ
le64 m at = le32 m at + 2 ^ 32 * le32 m (at + 4)

-- What is stored to `*ptr`.
unfoldable pub marker_at : Memory → ℕ → Marker
unfolding int_be64toh
marker_at m at = record {
  magic = be32 m at;
  version = byte_at m (at + 4);
  flags = byte_at m (at + 5);
  reserved = be16 m (at + 6);
  exp_id = be32 m (at + 8);
  run_id = be32 m (at + 12);
  key_id = be32 m (at + 16);
  seq_num = be32 m (at + 20);
  timestamp = int_be64toh (le64 m (at + 24));
}

abbrev pub markerport : ℕ
markerport = 0x0811

abbrev pub marker_magic : ℕ
marker_magic = 0x9f7a3c83

-- What is returned, and what is stored through a pointer that is not null.
abbrev pub no_marker : ℕ × Option Marker
no_marker = (0, none)

unfoldable pub is_marker_udp : Memory → ℕ → ℕ × Option Marker
unfolding marker_at
is_marker_udp m payload =
    if be32 m payload == marker_magic then (1, some (marker_at m payload)) else no_marker

-- The tests behind the search for the UDP header.
unfoldable pub marker_behind : Memory → ℕ → Option Ports → ℕ × Option Marker
unfolding marker_at
marker_behind m port none = no_marker
marker_behind m port (some udp) =
    let at = udp.header + 8 in
    if udp.source == markerport && (udp.dest == port || port == 0) && be32 m at == marker_magic
    then (udp.dest, some (marker_at m at))
    else no_marker

-- `none`: the search for the IPv4 header does not end.
unfoldable pub is_marker : ℕ → Memory → ℕ → Option (ℕ × Option Marker)
unfolding marker_behind
is_marker fuel m port = elim (find_ipv4_header fuel m) [
  | found ip ↦ some (marker_behind m port (find_udp_header m (some ip)))
  | absent ↦ some no_marker
  | endless ↦ none
]
