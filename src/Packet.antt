-- ===== src/Packet.antt =====
-- Finding headers in a captured Ethernet frame: `find_ipv4_header` of src/packet.c, and
-- `find_ether_vlan_header`, `find_ipproto_header`, `find_tcp_header` and `find_udp_header` of
-- src/filter.c. A pointer is an offset from the first byte of the frame, and the frame is the memory
-- from there on, since the code checks no length.
pub mod Ipv4
pub mod Transport
pub mod Size
pub mod Ethertype
use libcap_utils.Prelude.{
  ℕ, zero, suc, ◌+◌, ◌*◌, ◌%◌, Bool, true, false, Option, none, some, ◌&&◌, ◌==◌, if◌then◌else◌,
  Memory, byte_at, be16, le32, u32,
}

-- `sizeof(struct ethhdr)` and `sizeof(struct ether_vlan_header)`
abbrev pub ethhdr_size : ℕ
ethhdr_size = 14

abbrev pub ether_vlan_header_size : ℕ
ether_vlan_header_size = 18

-- `ETHERTYPE_IP`, `ETHERTYPE_VLAN`, `IPPROTO_TCP` and `IPPROTO_UDP`
abbrev pub ethertype_ip : ℕ
ethertype_ip = 0x0800

abbrev pub ethertype_vlan : ℕ
ethertype_vlan = 0x8100

abbrev pub ipproto_tcp : ℕ
ipproto_tcp = 6

abbrev pub ipproto_udp : ℕ
ipproto_udp = 17

-- `ntohs(ether->h_proto)`
abbrev pub h_proto : Memory → ℕ
h_proto m = be16 m 12

-- The fields of the `struct ip` at an offset. The addresses are words as the host reads them.
abbrev pub ip_hl : Memory → ℕ → ℕ
ip_hl m ip = byte_at m ip % 16

abbrev pub ip_len : Memory → ℕ → ℕ
ip_len m ip = be16 m (ip + 2)

abbrev pub ip_p : Memory → ℕ → ℕ
ip_p m ip = byte_at m (ip + 9)

abbrev pub ip_src : Memory → ℕ → ℕ
ip_src m ip = le32 m (ip + 12)

abbrev pub ip_dst : Memory → ℕ → ℕ
ip_dst m ip = le32 m (ip + 16)

-- What the search for an IPv4 header comes to. `endless` is no result of the code: the tags went on
-- for as long as there was fuel.
pub data Search : Type 0 where
  found : ℕ → Search
  absent : Search
  endless : Search

-- The `retry` loop of `find_ipv4_header_int`: one round for each VLAN tag.
unfoldable pub find_loop : ℕ → Memory → ℕ → ℕ → Search
find_loop zero m cur proto = endless
find_loop (suc fuel) m cur proto =
    let rest = find_loop fuel m (cur + 4) (be16 m (cur + 2)) in
    if proto == ethertype_ip then found cur else if proto == ethertype_vlan then rest else absent

-- `find_ipv4_header(ether, NULL)`, with the number of tags to follow at most.
unfoldable pub find_ipv4_header : ℕ → Memory → Search
find_ipv4_header fuel m = find_loop (suc fuel) m ethhdr_size (h_proto m)

-- What `find_ipv4_header` stores through `ptr` for a header that it found.
unfoldable pub ipv4_payload : Memory → ℕ → ℕ
ipv4_payload m ip = ip + 4 * ip_hl m ip

-- `find_ether_vlan_header`: whether there is a tag, and the new `h_proto`.
unfoldable pub find_ether_vlan_header : Memory → ℕ → Bool × ℕ
find_ether_vlan_header m proto =
    if proto == ethertype_vlan then (true, be16 m 16) else (false, proto)

-- `ntohs(vlan->vlan_tci)`
abbrev pub vlan_tci : Memory → ℕ
vlan_tci m = be16 m 14

unfoldable pub find_ipproto_header : Memory → ℕ → ℕ
find_ipproto_header m ip =
    let vlan_offset = (if h_proto m == ethertype_vlan then 4 else 0) in
    ethhdr_size + vlan_offset + 4 * ip_hl m ip

-- A transport header: its offset, and its first two fields, the ports.
pub record Ports : Type 0 where
  pub header : ℕ
  pub source : ℕ
  pub dest : ℕ

-- `ip` is the offset of the IPv4 header, or null.
find_header : ℕ → Memory → Option ℕ → Option Ports
find_header proto m none = none
find_header proto m (some ip) =
    let t = find_ipproto_header m ip in
    if ip_p m ip == proto
    then some (record { header = t; source = be16 m t; dest = be16 m (t + 2) })
    else none

unfoldable pub find_tcp_header : Memory → Option ℕ → Option Ports
unfolding find_header
find_tcp_header m ip = find_header ipproto_tcp m ip

unfoldable pub find_udp_header : Memory → Option ℕ → Option Ports
unfolding find_header
find_udp_header m ip = find_header ipproto_udp m ip
