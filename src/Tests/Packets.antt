-- ===== src/Tests/Packets.antt =====
-- The theorems on the search for headers at concrete packets.
use libcap_utils.Prelude.{zero, suc, ◌+◌, ◌*◌, ◌-◌, ◌≡◌, refl, ◌==◌, if◌then◌else◌, be16, arith}
use libcap_utils.Packet.{
  found, absent, find_ipv4_header, find_ipproto_header, ipv4_payload, ethertype_ip, ethhdr_size,
  ip_hl, ip_len,
}
use libcap_utils.Packet.Ipv4.{Tagged, type_at, find_ipv4_header_lem}
use libcap_utils.Packet.Transport.{find_ipproto_header_lem}
use libcap_utils.Packet.Size.{Level, layer_size, layer_size_tcp, untagged, tcp_header_length}
use libcap_utils.Tests.{plain, double_tagged}

double_tagged-Tagged : Tagged double_tagged 2
unfolding be16
double_tagged-Tagged zero b = refl
double_tagged-Tagged (suc zero) b = refl
double_tagged-Tagged (suc (suc j)) b = absurd (omega arith)

find_ipv4_header_lem_example :
    find_ipv4_header 3 double_tagged
    ≡ (if type_at double_tagged 2 == ethertype_ip then found (ethhdr_size + 4 * 2) else absent)
unfolding be16
find_ipv4_header_lem_example =
    find_ipv4_header_lem 3 2 double_tagged (omega arith) double_tagged-Tagged (omega arith)

find_ipproto_header_lem_example :
    find_ipproto_header double_tagged (ethhdr_size + 4 * 2) + 4 * (2 - 1)
    ≡ ipv4_payload double_tagged (ethhdr_size + 4 * 2)
unfolding be16
find_ipproto_header_lem_example = find_ipproto_header_lem 2 double_tagged double_tagged-Tagged refl

layer_size_tcp_example :
    (layer_size Level.transport 58 plain + 4 * ip_hl plain 14 ≡ ip_len plain 14)
    × (layer_size Level.transport 58 plain
        ≡ tcp_header_length plain (14 + 4 * ip_hl plain 14) + layer_size Level.application 58 plain)
unfolding be16
layer_size_tcp_example = layer_size_tcp 58 plain {ip = 14} (untagged refl) refl (omega arith)
