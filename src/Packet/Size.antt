-- ===== src/Packet/Size.antt =====
-- `payload_size` and `layer_size` of src/packet.c. A size_t that would be negative wraps. What the
-- code prints to stderr about a packet that it cannot measure is left out.
use libcap_utils.Prelude.{
  ℕ, ◌+◌, ◌*◌, ◌/◌, ◌≤◌, ◌≡◌, arith, ◌==◌, if◌then◌else◌, Memory, byte_at, be16, be16-lt, sub64,
}
use libcap_utils.Packet.{
  ethhdr_size, ether_vlan_header_size, ethertype_ip, ethertype_vlan, ipproto_tcp, ipproto_udp,
  ip_hl, ip_len, ip_p, h_proto,
}

-- `enum Level`
pub data Level : Type 0 where
  invalid physical link network transport application : Level

-- `4*tcp->doff`, the length of the TCP header at an offset
abbrev pub tcp_header_length : Memory → ℕ → ℕ
tcp_header_length m tcp = 4 * (byte_at m (tcp + 12) / 16)

-- `ntohs(udp->len)`
abbrev pub udp_len : Memory → ℕ → ℕ
udp_len m udp = be16 m (udp + 4)

payload_tcp : Level → Memory → ℕ → ℕ → ℕ
payload_tcp Level.transport m ip tcp =
    sub64 (sub64 (ip_len m ip) (tcp_header_length m tcp)) (4 * ip_hl m ip)
payload_tcp _ m ip tcp = 0

payload_udp : Level → Memory → ℕ → ℕ
payload_udp Level.transport m udp = sub64 (udp_len m udp) 8
payload_udp _ m udp = 0

-- The switch over `ip->ip_p`.
payload_transport : Level → Memory → ℕ → ℕ
unfolding payload_tcp payload_udp
payload_transport level m ip =
    let payload = ip + 4 * ip_hl m ip in
    if ip_p m ip == ipproto_tcp
    then payload_tcp level m ip payload
    else if ip_p m ip == ipproto_udp
    then payload_udp level m payload
    else 0

payload_ip : Level → Memory → ℕ → ℕ
unfolding payload_transport
payload_ip Level.network m ip = sub64 (ip_len m ip) (4 * ip_hl m ip)
payload_ip level m ip = payload_transport level m ip

-- Every other type, the ones that the code knows by name too, has size 0.
payload_network : Level → Memory → ℕ
unfolding payload_ip
payload_network level m =
    if h_proto m == ethertype_ip
    then payload_ip level m ethhdr_size
    else if h_proto m == ethertype_vlan
    then payload_ip level m ether_vlan_header_size
    else 0

-- `len` is the field of the capture header: the length of the frame on the wire.
pub payload_size : Level → ℕ → Memory → ℕ
unfolding payload_network
payload_size Level.invalid len m = 0
payload_size Level.physical len m = len
payload_size Level.link len m = sub64 len ethhdr_size
payload_size level len m = payload_network level m

-- `(int)level - 1`
abbrev pub level_below : Level → Level
level_below Level.invalid = Level.invalid
level_below Level.physical = Level.invalid
level_below Level.link = Level.physical
level_below Level.network = Level.link
level_below Level.transport = Level.network
level_below Level.application = Level.transport

pub layer_size : Level → ℕ → Memory → ℕ
unfolding payload_size
layer_size Level.invalid len m = 0
layer_size Level.physical len m = 0
layer_size level len m = payload_size (level_below level) len m

-- An IPv4 header that the code measures: behind no tag or one, at the offset that goes with it.
pub data Measured (m : Memory) : ℕ → Type 0 where
  untagged : h_proto m ≡ ethertype_ip → Measured m ethhdr_size
  tagged : h_proto m ≡ ethertype_vlan → Measured m ether_vlan_header_size

payload_network-Measured :
    (level : Level) (m : Memory) {ip : ℕ}
    → Measured m ip
    → payload_network level m ≡ payload_ip level m ip
unfolding payload_network
payload_network-Measured level m (untagged t) = rw t
payload_network-Measured level m (tagged t) = rw t

payload_ip_tcp :
    (m : Memory) (ip : ℕ)
    → ip_p m ip ≡ ipproto_tcp
    → let header = tcp_header_length m (ip + 4 * ip_hl m ip) in
      4 * ip_hl m ip + header ≤ ip_len m ip
      → (payload_ip Level.network m ip + 4 * ip_hl m ip ≡ ip_len m ip)
        × (payload_ip Level.network m ip ≡ header + payload_ip Level.transport m ip)
unfolding payload_ip
payload_ip_tcp m ip p h = ground (arith, be16-lt m (ip + 2))

-- The layers of a TCP packet nest. If its headers fit its length, the transport layer is what the
-- network layer carries, and it is made of the TCP header and the application's payload, which the
-- application layer measures.
pub layer_size_tcp :
    (len : ℕ) (m : Memory) {ip : ℕ}
    → Measured m ip
    → ip_p m ip ≡ ipproto_tcp
    → 4 * ip_hl m ip + tcp_header_length m (ip + 4 * ip_hl m ip) ≤ ip_len m ip
    → (layer_size Level.transport len m + 4 * ip_hl m ip ≡ ip_len m ip)
      × (layer_size Level.transport len m
          ≡ tcp_header_length m (ip + 4 * ip_hl m ip) + layer_size Level.application len m)
unfolding layer_size
layer_size_tcp len m at p h =
    rw (payload_network-Measured Level.network m at, payload_network-Measured Level.transport m at)
      (payload_ip_tcp m _ p h)
