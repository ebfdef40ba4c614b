-- ===== src/Filter/Core.antt =====
-- `filter_core` of src/filter.c: the sixteen tests, the word of those that matched, and the mode.
pub mod Words
pub mod Transport
pub mod Decision
use libcap_utils.Prelude.{
  ℕ, zero, suc, ◌+◌, ◌*◌, ◌^◌, Bool, true, false, Option, none, some, List, [], ◌∷◌, ◌&&◌, bit_or,
  ◌==◌, ltb, if◌then◌else◌, Memory,
}
use libcap_utils.Packet.{
  Search, found, absent, endless, Ports, find_ipv4_header, find_ether_vlan_header, find_tcp_header,
  find_udp_header, h_proto, vlan_tci,
}
use libcap_utils.Time.{Picotime}
use libcap_utils.Filter.{Filter, CapHeader, Mode, all_of, any_of, unknown, selected}
use libcap_utils.Filter.Offset
use libcap_utils.Filter.Criteria
use libcap_utils.Filter.Criteria.{filter_frame_num}

unfoldable pub filter_iface : Filter → List ℕ → Bool
unfolding Criteria.iface
filter_iface f nic = selected f.index Offset.iface && Criteria.iface f nic

unfoldable pub filter_vlan_tci : Filter → Bool → ℕ → Bool
unfolding Criteria.vlan_tci
filter_vlan_tci f vlan tci = selected f.index Offset.vlan && Criteria.vlan_tci f vlan tci

unfoldable pub filter_h_proto : Filter → ℕ → Bool
unfolding Criteria.h_proto
filter_h_proto f proto = selected f.index Offset.eth_type && Criteria.h_proto f proto

unfoldable pub filter_eth_src : Filter → Memory → Bool
unfolding Criteria.eth_src
filter_eth_src f m = selected f.index Offset.eth_src && Criteria.eth_src f m

unfoldable pub filter_eth_dst : Filter → Memory → Bool
unfolding Criteria.eth_dst
filter_eth_dst f m = selected f.index Offset.eth_dst && Criteria.eth_dst f m

unfoldable pub filter_ip_proto : Filter → Memory → Option ℕ → Bool
unfolding Criteria.ip_proto
filter_ip_proto f m ip = selected f.index Offset.ip_proto && Criteria.ip_proto f m ip

unfoldable pub filter_ip_src : Filter → Memory → Option ℕ → Bool
unfolding Criteria.ip_src
filter_ip_src f m ip = selected f.index Offset.ip_src && Criteria.ip_src f m ip

unfoldable pub filter_ip_dst : Filter → Memory → Option ℕ → Bool
unfolding Criteria.ip_dst
filter_ip_dst f m ip = selected f.index Offset.ip_dst && Criteria.ip_dst f m ip

unfoldable pub filter_src_port : Filter → ℕ → Bool
unfolding Criteria.src_port
filter_src_port f port = selected f.index Offset.src_port && Criteria.src_port f port

unfoldable pub filter_dst_port : Filter → ℕ → Bool
unfolding Criteria.dst_port
filter_dst_port f port = selected f.index Offset.dst_port && Criteria.dst_port f port

unfoldable pub filter_port : Filter → ℕ → ℕ → Bool
unfolding Criteria.port
filter_port f src dst = selected f.index Offset.port && Criteria.port f src dst

unfoldable pub filter_mampid : Filter → List ℕ → Bool
unfolding Criteria.mampid
filter_mampid f id = selected f.index Offset.mampid && Criteria.mampid f id

unfoldable pub filter_start_time : Filter → Picotime → Bool
unfolding Criteria.start_time
filter_start_time f t = selected f.index Offset.start_time && Criteria.start_time f t

unfoldable pub filter_end_time : Filter → Picotime → Bool
unfolding Criteria.end_time
filter_end_time f t = selected f.index Offset.end_time && Criteria.end_time f t

unfoldable pub filter_frame_dt : Filter → Picotime → Bool
unfolding Criteria.frame_dt
filter_frame_dt f t = selected f.index Offset.frame_max_dt && Criteria.frame_dt f t

-- The ports that the two searches leave in `src_port` and `dst_port`, which start at 0: the UDP
-- search comes last.
unfoldable pub find_ports : Memory → Option ℕ → ℕ × ℕ
find_ports m ip = elim (find_udp_header m ip) [
  | some p ↦ (p.source, p.dest)
  | none ↦ elim (find_tcp_header m ip) [ some p ↦ (p.source, p.dest) | none ↦ (0, 0) ]
]

-- `match |= test << offset` for the tests of one offset after the other.
unfoldable pub accumulate : ℕ → ℕ → List Bool → ℕ
accumulate match offset [] = match
accumulate match offset (test ∷ rest) =
    accumulate (bit_or match ((if test then 1 else 0) * 2 ^ offset)) (offset + 1) rest

-- The tests of the local variables that `filter_core` sets up, in the order of their offsets, which
-- is the order of the code.
unfoldable pub tests : Filter → Memory → CapHeader → Option ℕ → List Bool
unfolding filter_dst_port filter_src_port filter_ip_dst filter_ip_src filter_ip_proto filter_eth_dst
    filter_eth_src filter_h_proto filter_vlan_tci filter_iface filter_mampid filter_end_time
    filter_start_time filter_port filter_frame_dt filter_frame_num find_ports
tests f m head ip =
    let (vlan, proto) = find_ether_vlan_header m (h_proto m) in
    let (src, dst) = find_ports m ip in
    filter_dst_port f dst
    ∷ filter_src_port f src
    ∷ filter_ip_dst f m ip
    ∷ filter_ip_src f m ip
    ∷ filter_ip_proto f m ip
    ∷ filter_eth_dst f m
    ∷ filter_eth_src f m
    ∷ filter_h_proto f proto
    ∷ filter_vlan_tci f vlan (vlan_tci m)
    ∷ filter_iface f head.nic
    ∷ filter_mampid f head.mampid
    ∷ filter_end_time f head.ts
    ∷ filter_start_time f head.ts
    ∷ filter_port f src dst
    ∷ filter_frame_dt f head.ts
    ∷ filter_frame_num f
    ∷ []

-- The switch at the end. `none` is `abort`.
unfoldable pub decide_mode : Mode → ℕ → ℕ → Option Bool
decide_mode all_of index match = some (match == index)
decide_mode any_of index match = some (ltb 0 match)
decide_mode unknown index match = none

unfoldable pub filter_core_at : Filter → Memory → CapHeader → Option ℕ → Option Bool
unfolding tests accumulate decide_mode
filter_core_at f m head ip = decide_mode f.mode f.index (accumulate 0 0 (tests f m head ip))

-- With the number of VLAN tags to follow. `none`: the code does not return.
unfoldable pub filter_core : ℕ → Filter → Memory → CapHeader → Option Bool
unfolding filter_core_at
filter_core fuel f m head = elim (find_ipv4_header fuel m) [
  | found ip ↦ filter_core_at f m head (some ip)
  | absent ↦ filter_core_at f m head none
  | endless ↦ none
]
