-- ===== src/Protocol/Next.antt =====
-- The `next_payload` callbacks of the protocols whose header has a simple layout.
use libcap_utils.Prelude.{
  ℕ, ◌+◌, ◌*◌, ◌/◌, ◌%◌, ◌^◌, none, some, Memory, byte_at, be16, be32, ◌==◌, ltb, ◌||◌,
  if◌then◌else◌, sub64,
}
use libcap_utils.Protocol.{
  Payload, done_, data_, dns, gtp, ipv4, ipv6, mpls, ptpv2, pw, ethernet, ethertype_next,
  ipproto_next,
}

-- The upper half of the byte at an address: the version of an IP header that starts there.
abbrev pub nibble : Memory → ℕ → ℕ
nibble m at = byte_at m at / 16

unfoldable pub ethernet_next : Memory → ℕ → ℕ → Payload
ethernet_next m ptr plen = record {
  type = ethertype_next (be16 m (ptr + 12));
  out = some (ptr + 14);
  plen = plen;
}

unfoldable pub vlan_next : Memory → ℕ → ℕ → Payload
vlan_next m ptr plen = record {
  type = ethertype_next (be16 m (ptr + 2));
  out = some (ptr + 4);
  plen = plen;
}

-- The addresses that the callback prints into `last_net` are left out.
unfoldable pub ipv4_next : Memory → ℕ → ℕ → Payload
ipv4_next m ptr plen =
    let ip_hl = byte_at m ptr % 16 in
    if ltb ip_hl 5 then record { type = done_; out = none; plen = plen } else record {
      type = ipproto_next (byte_at m (ptr + 9));
      out = some (ptr + 4 * ip_hl);
      plen = sub64 (be16 m (ptr + 2)) (4 * ip_hl);
    }

-- The fields of `union mpls_header`: `bottom` is bit 8.
unfoldable pub mpls_next_payload : Memory → ℕ → ℕ → Payload
mpls_next_payload m ptr plen =
    let bottom = be32 m ptr / 2 ^ 8 % 2 in
    let version = nibble m (ptr + 4) in
    record {
      type =
          if bottom == 0
          then mpls
          else if version == 0
          then pw
          else if version == 4
          then ipv4
          else if version == 6
          then ipv6
          else data_;
      out = some (ptr + 4);
      plen = plen;
    }

unfoldable pub pw_next_payload : Memory → ℕ → ℕ → Payload
pw_next_payload m ptr plen = record { type = ethernet; out = some (ptr + 4); plen = plen }

-- The bits of `union gre_header` for the optional words.
unfoldable pub gre_next : Memory → ℕ → ℕ → Payload
gre_next m ptr plen =
    let val = be32 m ptr in
    let checksum = val / 2 ^ 31 % 2 in
    let routing = val / 2 ^ 30 % 2 in
    let key = val / 2 ^ 29 % 2 in
    let sequence = val / 2 ^ 28 % 2 in
    record {
      type = ethertype_next (val % 2 ^ 16);
      out = some (
          ptr
          + 4
          + (if checksum == 1 || routing == 1 then 4 else 0)
          + (if key == 1 then 4 else 0)
          + (if sequence == 1 then 4 else 0));
      plen = plen;
    }

-- `tcp->doff` is the upper half of byte 12. The payload size is a size_t.
unfoldable pub tcp_next : Memory → ℕ → ℕ → Payload
tcp_next m ptr plen =
    let header_size = 4 * nibble m (ptr + 12) in
    if sub64 plen header_size == 0
    then record { type = done_; out = some (ptr + header_size); plen = plen }
    else if be16 m ptr == 53 || be16 m (ptr + 2) == 53
    then record { type = dns; out = some (ptr + header_size + 2); plen = plen }
    else record { type = data_; out = some (ptr + header_size); plen = plen }

-- The switch jumps over the test of `dport == sport` to the labels inside it.
unfoldable pub udp_next : Memory → ℕ → ℕ → Payload
udp_next m ptr plen =
    let sport = be16 m ptr in
    let dport = be16 m (ptr + 2) in
    record {
      type =
          if sport == 53 || dport == 53
          then dns
          else if dport == 2152 || dport == 2123
          then gtp
          else if dport == 319
          then ptpv2
          else data_;
      out = some (ptr + 8);
      plen = plen;
    }

-- ARP, CDP, ICMP, IGMP, OSPF, PTPv2, SCTP and STP end the walk and leave `*out` alone.
unfoldable pub last_next : Memory → ℕ → ℕ → Payload
last_next m ptr plen = record { type = done_; out = some ptr; plen = plen }
