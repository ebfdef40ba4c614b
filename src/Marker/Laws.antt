-- ===== src/Marker/Laws.antt =====
-- Which packets src/marker.c takes for a marker, and the byte order of fallback/be64toh.c.
use libcap_utils.Prelude.{
  ℕ, ◌+◌, ◌*◌, ◌/◌, ◌%◌, ◌^◌, none, ◌∙◌, ◌≤◌, ◌<◌, ◌≡◌, ◌≢◌, refl, some, Memory, byte_at, be16,
  be32, le32, swap32, swap32-swap32, swap32-lt, ◌==◌, ◌&&◌, ◌||◌, if◌then◌else◌, arith,
}
use libcap_utils.Packet.{
  found, find_ipv4_header, find_udp_header, ethertype_ip, ethertype_vlan, ethhdr_size,
  find_ipproto_header,
}
use libcap_utils.Packet.Transport.{find_ipproto_header_payload}
use libcap_utils.Packet.Ipv4.{Tagged, type_at, find_ipv4_header_lem}
use libcap_utils.Marker.{
  word_low, word_high, int_htobe64, int_be64toh, Marker, le64, marker_at, is_marker_udp,
  marker_behind, is_marker,
}

-- On every 64-bit word `_int_be64toh` undoes `_int_htobe64`.
pub int_be64toh-htobe64 : (w : ℕ) → w < 2 ^ 64 → int_be64toh (int_htobe64 w) ≡ w
unfolding int_be64toh int_htobe64
int_be64toh-htobe64 w h =
    let low = swap32-swap32 (word_low w) (omega arith) in
    let high = swap32-swap32 (word_high w) (omega arith) in
    let a = swap32-lt (word_low w) in
    let b = swap32-lt (word_high w) in
    let big = swap32 (word_high w) + 2 ^ 32 * swap32 (word_low w) in
    let l : word_low big ≡ swap32 (word_high w) = omega arith in
    let r : word_high big ≡ swap32 (word_low w) = omega arith in rw (l, r, low, high) (omega arith)

swap32-bytes :
    (a b c d : ℕ)
    → a < 256
    → b < 256
    → c < 256
    → d < 256
    → swap32 (a + b * 2 ^ 8 + c * 2 ^ 16 + d * 2 ^ 24) ≡ (a * 256 + b) * 2 ^ 16 + (c * 256 + d)
unfolding swap32
swap32-bytes a b c d ha hb hc hd = omega arith

byte_at-lt : (m : Memory) (at : ℕ) → byte_at m at < 256
byte_at-lt m at = omega arith

swap32-le32 : (m : Memory) (at : ℕ) → swap32 (le32 m at) ≡ be32 m at
unfolding le32 be32 be16
swap32-le32 m at =
    let last : at + 2 + 1 ≡ at + 3 = omega arith in
    let swapped =
      swap32-bytes (byte_at m at) (byte_at m (at + 1)) (byte_at m (at + 2)) (byte_at m (at + 3))
        (byte_at-lt m at) (byte_at-lt m (at + 1)) (byte_at-lt m (at + 2)) (byte_at-lt m (at + 3)) in
    rw (be32, be16, last) swapped

le32-lt : (m : Memory) (at : ℕ) → le32 m at < 2 ^ 32
unfolding le32
le32-lt m at = omega arith

-- `_int_be64toh` of a word that the host reads from memory is the number whose eight bytes stand
-- there, the first one the most significant.
int_be64toh-le64 :
    (m : Memory) (at : ℕ) → int_be64toh (le64 m at) ≡ be32 m at * 2 ^ 32 + be32 m (at + 4)
unfolding int_be64toh
int_be64toh-le64 m at =
    let a = le32-lt m at in
    let b = le32-lt m (at + 4) in
    let l : word_low (le64 m at) ≡ le32 m at = omega arith in
    let r : word_high (le64 m at) ≡ le32 m (at + 4) = omega arith in
    rw (l, r) (omega (arith, swap32-le32 m at, swap32-le32 m (at + 4)))

-- The bytes of a number from an address on, the most significant one first.
abbrev pub Holds16 : Memory → ℕ → ℕ → Type 0
Holds16 m at w = (byte_at m at ≡ w / 2 ^ 8) × (byte_at m (at + 1) ≡ w % 2 ^ 8)

abbrev pub Holds32 : Memory → ℕ → ℕ → Type 0
Holds32 m at w = Holds16 m at (w / 2 ^ 16) × Holds16 m (at + 2) (w % 2 ^ 16)

abbrev pub Holds64 : Memory → ℕ → ℕ → Type 0
Holds64 m at w = Holds32 m at (w / 2 ^ 32) × Holds32 m (at + 4) (w % 2 ^ 32)

-- The bytes of a marker, in the layout of `struct marker` and in network order.
pub record Encodes (m : Memory) (at : ℕ) (marker : Marker) : Type 0 where
  pub magic : Holds32 m at marker.magic
  pub version : byte_at m (at + 4) ≡ marker.version
  pub flags : byte_at m (at + 5) ≡ marker.flags
  pub reserved : Holds16 m (at + 6) marker.reserved
  pub exp_id : Holds32 m (at + 8) marker.exp_id
  pub run_id : Holds32 m (at + 12) marker.run_id
  pub key_id : Holds32 m (at + 16) marker.key_id
  pub seq_num : Holds32 m (at + 20) marker.seq_num
  pub timestamp : Holds64 m (at + 24) marker.timestamp

be16-Holds16 : (m : Memory) (at w : ℕ) → Holds16 m at w → be16 m at ≡ w
unfolding be16
be16-Holds16 m at w h = omega (arith, h.0, h.1)

be32-Holds32 : (m : Memory) (at w : ℕ) → Holds32 m at w → be32 m at ≡ w
unfolding be32
be32-Holds32 m at w h =
    let high = be16-Holds16 m at (w / 2 ^ 16) h.0 in
    let low = be16-Holds16 m (at + 2) (w % 2 ^ 16) h.1 in omega (arith, high, low)

int_be64toh-Holds64 : (m : Memory) (at w : ℕ) → Holds64 m at w → int_be64toh (le64 m at) ≡ w
int_be64toh-Holds64 m at w h =
    let high = be32-Holds32 m at (w / 2 ^ 32) h.0 in
    let low = be32-Holds32 m (at + 4) (w % 2 ^ 32) h.1 in
    int_be64toh-le64 m at ∙ omega (arith, high, low)

-- A marker is decoded from its bytes.
marker_at-Encodes :
    (m : Memory) (at : ℕ) (marker : Marker) → Encodes m at marker → marker_at m at ≡ marker
unfolding marker_at
marker_at-Encodes m at marker e = λ i. record {
  magic = be32-Holds32 m at marker.magic e.magic i;
  version = e.version i;
  flags = e.flags i;
  reserved = be16-Holds16 m (at + 6) marker.reserved e.reserved i;
  exp_id = be32-Holds32 m (at + 8) marker.exp_id e.exp_id i;
  run_id = be32-Holds32 m (at + 12) marker.run_id e.run_id i;
  key_id = be32-Holds32 m (at + 16) marker.key_id e.key_id i;
  seq_num = be32-Holds32 m (at + 20) marker.seq_num e.seq_num i;
  timestamp = int_be64toh-Holds64 m (at + 24) marker.timestamp e.timestamp i;
}

-- Where the UDP header of a packet is, by its IPv4 header.
abbrev pub udp_at : Memory → ℕ → ℕ
udp_at m ip = ip + byte_at m ip % 16 * 4

find_udp_header-at :
    (m : Memory) (ip : ℕ)
    → find_ipproto_header m ip ≡ udp_at m ip
    → byte_at m (ip + 9) ≡ 17
    → find_udp_header m (some ip)
      ≡ some (record {
        header = udp_at m ip;
        source = be16 m (udp_at m ip);
        dest = be16 m (udp_at m ip + 2);
      })
unfolding find_udp_header
find_udp_header-at m ip e udp = rw (find_udp_header, udp, e) refl

-- A UDP packet over IPv4, behind at most one VLAN tag, whose payload begins with the bytes of a marker.
-- `is_marker` takes it for a marker exactly if it comes from port 0x0811, goes to the given port or the
-- given port is 0, and has the magic number 0x9f7a3c83. Then it returns the port that the packet goes
-- to, which may be 0, and stores the marker; otherwise it returns 0. `is_marker_udp` tests the payload
-- for the magic number alone, and stores the same.
pub is_marker_lem :
    (fuel n : ℕ) (m : Memory) (port : ℕ) (marker : Marker)
    → n ≤ fuel
    → n ≤ 1
    → Tagged m n
    → type_at m n ≡ ethertype_ip
    → byte_at m (ethhdr_size + 4 * n + 9) ≡ 17
    → Encodes m (udp_at m (ethhdr_size + 4 * n) + 8) marker
    → let udp = udp_at m (ethhdr_size + 4 * n) in
      (is_marker fuel m port
        ≡ some (
            if be16 m udp == 0x0811
              && (be16 m (udp + 2) == port || port == 0)
              && marker.magic == 0x9f7a3c83
            then (be16 m (udp + 2), some marker)
            else (0, none)))
      × (is_marker_udp m (udp + 8)
          ≡ (if marker.magic == 0x9f7a3c83 then (1, some marker) else (0, none)))
unfolding is_marker marker_behind is_marker_udp
is_marker_lem fuel n m port marker h one tags type proto e =
    let ip = ethhdr_size + 4 * n in
    let udp = udp_at m ip in
    let other : type_at m n ≢ ethertype_vlan = ground (arith, type) in
    let search = find_ipv4_header_lem fuel n m h tags other in
    let here : find_ipv4_header fuel m ≡ found ip = ground (arith, search, type) in
    let header = find_udp_header-at m ip (find_ipproto_header_payload n m one tags type) proto in
    let stored = marker_at-Encodes m (udp + 8) marker e in
    let magic = be32-Holds32 m (udp + 8) marker.magic e.magic in
    (
      rw (is_marker, here, header, marker_behind, stored, magic) refl,
      rw (is_marker_udp, stored, magic) refl,
    )
