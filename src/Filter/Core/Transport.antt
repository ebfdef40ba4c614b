-- ===== src/Filter/Core/Transport.antt =====
-- What `find_ipproto_header`, `find_tcp_header` and `find_udp_header` of src/filter.c, and
-- `filter_core` behind them, read from a frame with at most one VLAN tag.
use libcap_utils.Prelude.{
  ℕ, zero, suc, ◌+◌, ◌*◌, ◌%◌, ◌≤◌, ◌≡◌, ◌≢◌, inl, inr, refl, arith, Bool-cases, Option, none, some,
  Memory, byte_at, be16, ◌==◌, ◌||◌, if◌then◌else◌,
}
use libcap_utils.Packet.{
  ethhdr_size, ethertype_ip, ethertype_vlan, ip_p, ipproto_tcp, ipproto_udp, find_tcp_header,
  find_udp_header, find_ether_vlan_header, h_proto,
}
use libcap_utils.Packet.Ipv4.{type_at, Tagged}
use libcap_utils.Packet.Transport.{find_ipproto_header_payload}
use libcap_utils.Filter.Core.{find_ports}

-- The source and the destination port of a packet by its IPv4 header: the first two 16-bit words
-- behind that header, whose length is counted in words of four bytes, and 0 without TCP and UDP.
abbrev pub ports_at : Memory → Option ℕ → ℕ × ℕ
ports_at m none = (0, 0)
ports_at m (some ip) =
    if ip_p m ip == ipproto_tcp || ip_p m ip == ipproto_udp
    then (be16 m (ip + byte_at m ip % 16 * 4), be16 m (ip + byte_at m ip % 16 * 4 + 2))
    else (0, 0)

pub find_ports-ports_at :
    (n : ℕ) (m : Memory)
    → n ≤ 1
    → Tagged m n
    → type_at m n ≡ ethertype_ip
    → find_ports m (some (ethhdr_size + 4 * n)) ≡ ports_at m (some (ethhdr_size + 4 * n))
unfolding find_ports find_tcp_header find_udp_header
find_ports-ports_at n m one tags ip =
    let e = find_ipproto_header_payload n m one tags ip in
    elim (Bool-cases (ip_p m (ethhdr_size + 4 * n) == ipproto_udp)) [
      | inl udp ↦ ground (arith, e, udp)
      | inr other ↦ ground (arith, e, other)
    ]

pub find_ports-none : (m : Memory) → find_ports m none ≡ (0, 0)
unfolding find_ports find_tcp_header find_udp_header
find_ports-none m = refl

-- The tag and the type behind it.
pub find_ether_vlan_header_lem :
    (n : ℕ) (m : Memory)
    → n ≤ 1
    → Tagged m n
    → type_at m n ≢ ethertype_vlan
    → find_ether_vlan_header m (h_proto m) ≡ (n == 1, type_at m n)
unfolding find_ether_vlan_header
find_ether_vlan_header_lem zero m one tags stop = ground arith
find_ether_vlan_header_lem (suc zero) m one tags stop = ground (arith, tags 0 (omega arith))
find_ether_vlan_header_lem (suc (suc n)) m one tags stop = absurd (omega arith)
