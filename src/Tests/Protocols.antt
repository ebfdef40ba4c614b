-- ===== src/Tests/Protocols.antt =====
-- The theorems on the walk over headers at concrete packets.
use libcap_utils.Prelude.{
  ◌↔◌, ◌+◌, ◌*◌, ◌≡◌, refl, [], ◌∷◌, ◌++◌, replicate, some, false, Memory, memory_of, swap16, be16,
}
use libcap_utils.Protocol.{ethernet, ipv4, udp, ethertype_next}
use libcap_utils.Protocol.Gtp.{gtp_header_size, gtp_version}
use libcap_utils.Protocol.Walk.Abort.{IsBroken, header_walk-IsBroken}
use libcap_utils.Protocol.Ipv6.{ipv6_total_header_size, ext_loop, known}
use libcap_utils.Protocol.Descriptor.{callback, header_size}
use libcap_utils.Protocol.Next.{ethernet_next, udp_next}
use libcap_utils.Protocol.Walk.{
  Chunk, abort, header_init, header_walk, next_payload, enter, arrive, walk,
}
use libcap_utils.Protocol.Walk.Safety.{IsInside, header_walk-IsInside}
use libcap_utils.Protocol.Walk.Termination.{IsSafeWalk, header_walk_ends}
use libcap_utils.Tests.{plain}

-- An IPv6 header with a hop-by-hop header of eight bytes behind it, and TCP.
abbrev extended : Memory
extended = memory_of (replicate 40 0 ++ 6 ∷ [])

-- The walk as it is.
walk_over_extension : ipv6_total_header_size extended 60 0 ≡ known 48 48 6
unfolding ipv6_total_header_size ext_loop swap16
walk_over_extension = refl

abbrev at_ethernet : Chunk
at_ethernet = record { protocol = ethernet; ptr = some 0; truncated = false; plen = 0 }

abbrev at_ipv4 : Chunk
at_ipv4 = record { protocol = ipv4; ptr = some 14; truncated = false; plen = 0 }

header_walk-IsInside_example : IsInside plain 58 at_ipv4
unfolding header_walk next_payload enter arrive callback ethernet_next ethertype_next be16
    header_size
header_walk-IsInside_example = header_walk-IsInside plain 58 at_ethernet at_ipv4 refl

header_walk_ends_example : IsSafeWalk plain 58 (walk plain 58 (2 * 58 + 3) header_init)
header_walk_ends_example = header_walk_ends plain 58

-- A UDP header to the port of GTP, with a byte behind it that is no GTP version.
abbrev broken : Memory
broken = memory_of (0 ∷ 7 ∷ 8 ∷ 104 ∷ 0 ∷ 9 ∷ 0 ∷ 0 ∷ 255 ∷ [])

abbrev at_udp : Chunk
at_udp = record { protocol = udp; ptr = some 0; truncated = false; plen = 0 }

header_walk-IsBroken_example : (header_walk broken 9 at_udp ≡ abort) ↔ IsBroken broken 9 at_udp
header_walk-IsBroken_example = header_walk-IsBroken broken 9 at_udp

-- The walk ends the process there.
walk_aborts : header_walk broken 9 at_udp ≡ abort
unfolding header_walk next_payload enter arrive callback udp_next be16 header_size gtp_header_size
    gtp_version
walk_aborts = refl
