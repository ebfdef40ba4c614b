-- ===== src/Protocol/Descriptor.antt =====
-- `struct caputils_protocol` for each protocol: the size that its header needs, and its callback.
-- PROTOCOL_UNKNOWN has no descriptor.
use libcap_utils.Prelude.{ℕ, Option, none, some, Memory}
use libcap_utils.Protocol.{
  Protocol, Payload, unknown, done_, data_, dns, ethernet, gre, gtp, icmp, ipv4, ipv6, mpls, ptpv2,
  pw, sctp, tcp, udp, vlan,
}
use libcap_utils.Protocol.Next.{
  ethernet_next, vlan_next, ipv4_next, mpls_next_payload, pw_next_payload, gre_next, tcp_next,
  udp_next, last_next,
}
use libcap_utils.Protocol.Gtp.{gtp_header_size, gtp_next}
use libcap_utils.Protocol.Ipv6.{ipv6_next}

-- The field `size`; for GTP, which has `size_dyn`, it is not read.
unfoldable pub size : Protocol → ℕ
size dns = 12
size ethernet = 14
size gre = 4
size gtp = 1
size icmp = 8
size ipv4 = 20
size ipv6 = 20
size mpls = 4
size ptpv2 = 30
size pw = 4
size sctp = 12
size tcp = 20
size udp = 8
size vlan = 4
size _ = 0

-- `header_size`. `none` is `abort`.
unfoldable pub header_size : Protocol → Memory → ℕ → Option ℕ
unfolding size
header_size gtp m ptr = gtp_header_size m ptr
header_size protocol m ptr = some (size protocol)

-- What a call of `next_payload` comes to: there may be no callback, and it may abort.
pub data Callback : Type 0 where
  missing : Callback
  aborts : Callback
  gives : Payload → Callback

abbrev pub or_abort : Option Payload → Callback
or_abort none = aborts
or_abort (some p) = gives p

unfoldable pub callback : Protocol → Memory → ℕ → ℕ → ℕ → Callback
callback unknown m caplen ptr plen = missing
callback done_ m caplen ptr plen = missing
callback data_ m caplen ptr plen = missing
callback dns m caplen ptr plen = missing
callback ethernet m caplen ptr plen = gives (ethernet_next m ptr plen)
callback vlan m caplen ptr plen = gives (vlan_next m ptr plen)
callback ipv4 m caplen ptr plen = gives (ipv4_next m ptr plen)
callback ipv6 m caplen ptr plen = gives (ipv6_next m caplen ptr plen)
callback mpls m caplen ptr plen = gives (mpls_next_payload m ptr plen)
callback pw m caplen ptr plen = gives (pw_next_payload m ptr plen)
callback gre m caplen ptr plen = gives (gre_next m ptr plen)
callback gtp m caplen ptr plen = or_abort (gtp_next m ptr plen)
callback tcp m caplen ptr plen = gives (tcp_next m ptr plen)
callback udp m caplen ptr plen = gives (udp_next m ptr plen)
callback _ m caplen ptr plen = gives (last_next m ptr plen)
