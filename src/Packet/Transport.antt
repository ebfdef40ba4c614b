-- ===== src/Packet/Transport.antt =====
-- Where `find_tcp_header` and `find_udp_header` look, against where the IPv4 payload is.
use libcap_utils.Prelude.{ℕ, zero, suc, ◌+◌, ◌-◌, ◌*◌, ◌≡◌, ◌≤◌, ◌%◌, arith, Memory, byte_at}
use libcap_utils.Packet.{
  ethertype_ip, ethhdr_size, ipv4_payload, find_ipproto_header, found, find_ipv4_header,
}
use libcap_utils.Packet.Ipv4.{type_at, Tagged, find_ipv4_header_found}

-- The transport header behind an IPv4 header at `n` VLAN tags.
-- With at most one tag the code looks at the IPv4 payload. With two or more it looks four bytes too
-- early for each tag after the first.
pub find_ipproto_header_lem :
    (n : ℕ) (m : Memory)
    → Tagged m n
    → type_at m n ≡ ethertype_ip
    → find_ipproto_header m (ethhdr_size + 4 * n) + 4 * (n - 1)
      ≡ ipv4_payload m (ethhdr_size + 4 * n)
unfolding find_ipproto_header ipv4_payload
find_ipproto_header_lem zero m tags ip = ground arith
find_ipproto_header_lem (suc n) m tags ip = ground (arith, tags 0 (omega arith))

-- With at most one tag: behind the header, whose length is counted in words of four bytes.
pub find_ipproto_header_payload :
    (n : ℕ) (m : Memory)
    → n ≤ 1
    → Tagged m n
    → type_at m n ≡ ethertype_ip
    → find_ipproto_header m (ethhdr_size + 4 * n)
      ≡ ethhdr_size + 4 * n + byte_at m (ethhdr_size + 4 * n) % 16 * 4
unfolding ipv4_payload
find_ipproto_header_payload n m one tags ip =
    let e = find_ipproto_header_lem n m tags ip in omega (arith, e, one)

-- The same for the header that the search finds.
pub find_ipproto_header_found :
    (fuel ip : ℕ) (m : Memory)
    → find_ipv4_header fuel m ≡ found ip
    → ip ≤ ethhdr_size + 4
    → find_ipproto_header m ip ≡ ip + byte_at m ip % 16 * 4
find_ipproto_header_found fuel ip m h near =
    let (n, at, is_ip, tags) = find_ipv4_header_found fuel m {off = ip} h in
    rw at (find_ipproto_header_payload n m (omega (arith, at, near)) tags is_ip)
