-- ===== src/Protocol.antt =====
-- The protocol descriptors of src/protocol.c and src/protocols/*.c, as far as they decide how the
-- headers of a packet are walked. A pointer is an offset into the captured packet.
pub mod Next
pub mod Gtp
pub mod Ipv6
pub mod Descriptor
pub mod Walk
pub mod TcpOptions
pub mod DnsName
use libcap_utils.Prelude.{ℕ, ◌+◌, Bool, true, Option, none, some, ltb, ◌==◌, if◌then◌else◌}

-- `enum caputils_protocol_type`
pub data Protocol : Type 0 where
  unknown done_ data_ arp cdp dns ethernet gre gtp icmp igmp ipv4 ipv6 mpls ospf ptpv2 pw sctp stp
        tcp udp vlan :
      Protocol

-- What a `next_payload` callback gives: the type, what it leaves in `*out`, and in
-- `last_net.plen`.
pub record Payload : Type 0 where
  pub type : Protocol
  pub out : Option ℕ
  pub plen : ℕ

-- `limited_caplen` of src/format.c for a pointer that is not below the packet.
abbrev pub limited : ℕ → ℕ → ℕ → Bool
limited caplen ptr bytes = ltb caplen (ptr + bytes)

-- A null pointer is below every packet.
unfoldable pub limited_caplen : ℕ → Option ℕ → ℕ → Bool
limited_caplen caplen none bytes = true
limited_caplen caplen (some ptr) bytes = limited caplen ptr bytes

-- `ethertype_next` of src/protocols/ethernet.c
unfoldable pub ethertype_next : ℕ → Protocol
ethertype_next ethertype =
    if ethertype == 0x0806
    then arp
    else if ethertype == 0x8100
    then vlan
    else if ethertype == 0x0800
    then ipv4
    else if ethertype == 0x86dd
    then ipv6
    else if ethertype == 0x8847
    then mpls
    else if ethertype == 0x0026
    then stp
    else if ethertype == 0x88f7
    then ptpv2
    else data_

-- `ipproto_next` of src/protocols/ip.c
unfoldable pub ipproto_next : ℕ → Protocol
ipproto_next proto =
    if proto == 47
    then gre
    else if proto == 1
    then icmp
    else if proto == 2
    then igmp
    else if proto == 4
    then ipv4
    else if proto == 41
    then ipv6
    else if proto == 89
    then ospf
    else if proto == 6
    then tcp
    else if proto == 17
    then udp
    else if proto == 132
    then sctp
    else data_
