-- ===== src/Protocol/Walk/Broken.antt =====
-- GTP headers whose size src/protocols/gtp.c cannot tell, and the headers that lead to GTP by the
-- callbacks of src/protocols/udp.c and src/protocols/gtp.c.
use libcap_utils.Prelude.{
  ℕ, ◌≡◌, refl, false, none, some, Memory, arith, ◌⊎◌, ◌≢◌, ◌/◌, ◌%◌, inl, inr, byte_at, be16, ◌+◌,
  ◌||◌, if◌then◌else◌, Bool-cases, ◌==◌,
}
use libcap_utils.Protocol.{Protocol, Payload, gtp, udp, ethertype_next, ipproto_next}
use libcap_utils.Protocol.Ipv6.{ipv6_next}
use libcap_utils.Protocol.Next.{
  ethernet_next, vlan_next, ipv4_next, mpls_next_payload, pw_next_payload, gre_next, tcp_next,
  udp_next, last_next,
}
use libcap_utils.Protocol.Gtp.{gtp_header_size, gtp_next, gtp_version}
use libcap_utils.Protocol.Descriptor.{gives, callback}

-- A GTP header whose size the code cannot tell: its version, the upper three bits, is neither 1 nor 2,
-- or it is of version 1 with the flag of the protocol type and that of an extension header.
abbrev pub HasNoSize : Memory → ℕ → Type 0
HasNoSize m p =
    let first = byte_at m p in
    ((first / 32 ≢ 1) × (first / 32 ≢ 2))
    ⊎ ((first / 32 ≡ 1) × (first / 16 % 2 ≡ 1) × (first / 4 % 2 ≡ 1))

pub gtp_header_size-HasNoSize : (m : Memory) (p : ℕ) → gtp_header_size m p ≡ none → HasNoSize m p
unfolding gtp_header_size gtp_version
gtp_header_size-HasNoSize m p h =
    let first = byte_at m p in
    elim (Bool-cases (first / 32 == 1)) [
      | inl one ↦ inr (ground (arith, one), ground (arith, h, one), ground (arith, h, one))
      | inr other ↦ inl (ground (arith, other), ground (arith, h, other))
    ]

pub HasNoSize-gtp_header_size : (m : Memory) (p : ℕ) → HasNoSize m p → gtp_header_size m p ≡ none
unfolding gtp_header_size gtp_version
HasNoSize-gtp_header_size m p (inl (one, two)) = ground (arith, one, two)
HasNoSize-gtp_header_size m p (inr (one, prime, extension)) = ground (arith, one, prime, extension)

-- A header that has a GTP header behind it, at `p`: UDP to one of the two ports of GTP and with no port
-- of DNS, or GTP of version 2 with another one behind it, whose header has four bytes, or eight with a
-- tunnel identifier.
abbrev pub LeadsToGtp : Memory → Protocol → ℕ → ℕ → Type 0
LeadsToGtp m protocol ptr p =
    let first = byte_at m ptr in
    ((protocol ≡ udp)
      × ((be16 m ptr ≢ 53) × (be16 m (ptr + 2) ≢ 53))
      × ((be16 m (ptr + 2) ≡ 2152) ⊎ (be16 m (ptr + 2) ≡ 2123))
      × (p ≡ ptr + 8))
    ⊎ ((protocol ≡ gtp)
        × (first / 32 ≡ 2)
        × (first / 16 % 2 ≡ 1)
        × (p ≡ ptr + (if first / 8 % 2 == 1 then 8 else 4)))

udp_next-LeadsToGtp :
    (m : Memory) (ptr plen p : ℕ)
    → (udp_next m ptr plen).type ≡ gtp
    → (udp_next m ptr plen).out ≡ some p
    → LeadsToGtp m udp ptr p
unfolding udp_next
udp_next-LeadsToGtp m ptr plen p type out =
    let dns_free : (be16 m ptr == 53 || be16 m (ptr + 2) == 53) ≡ false =
      elim (Bool-cases (be16 m ptr == 53 || be16 m (ptr + 2) == 53)) [
        | inl is_dns ↦ absurd (ground (arith, type, is_dns))
        | inr free ↦ free
      ] in
    elim (Bool-cases (be16 m (ptr + 2) == 2152)) [
      | inl user ↦ inl (
        refl,
        (ground (arith, dns_free), ground (arith, dns_free)),
        inl (ground (arith, user)),
        ground (arith, out),
      )
      | inr other ↦ inl (
        refl,
        (ground (arith, dns_free), ground (arith, dns_free)),
        inr (ground (arith, type, dns_free, other)),
        ground (arith, out),
      )
    ]

gtp_next-LeadsToGtp :
    (m : Memory) (ptr plen p : ℕ) (payload : Payload)
    → gtp_next m ptr plen ≡ some payload
    → payload.type ≡ gtp
    → payload.out ≡ some p
    → LeadsToGtp m gtp ptr p
unfolding gtp_next gtp_header_size gtp_version
gtp_next-LeadsToGtp m ptr plen p payload e type out =
    inr (
      refl,
      ground (arith, e, type, out),
      ground (arith, e, type, out),
      ground (arith, e, type, out),
    )

pub callback-LeadsToGtp :
    (protocol : Protocol) (m : Memory) (caplen ptr plen p : ℕ) (payload : Payload)
    → callback protocol m caplen ptr plen ≡ gives payload
    → payload.type ≡ gtp
    → payload.out ≡ some p
    → LeadsToGtp m protocol ptr p
unfolding callback ethernet_next vlan_next ipv4_next ipv6_next mpls_next_payload pw_next_payload
    gre_next tcp_next last_next ethertype_next ipproto_next
callback-LeadsToGtp udp m caplen ptr plen p payload e type out =
    udp_next-LeadsToGtp m ptr plen p (ground (arith, e, type)) (ground (arith, e, out))
callback-LeadsToGtp gtp m caplen ptr plen p payload e type out =
    gtp_next-LeadsToGtp m ptr plen p payload (ground (arith, e)) type out
callback-LeadsToGtp _ m caplen ptr plen p payload e type out = absurd (ground (arith, e, type))

gtp_next-some :
    (m : Memory) (ptr plen p : ℕ)
    → byte_at m ptr / 32 ≡ 2
    → byte_at m ptr / 16 % 2 ≡ 1
    → p ≡ ptr + (if byte_at m ptr / 8 % 2 == 1 then 8 else 4)
    → gtp_next m ptr plen ≡ some (record { type = gtp; out = some p; plen = plen })
unfolding gtp_next gtp_header_size gtp_version
gtp_next-some m ptr plen p two piggybacked at = elim (Bool-cases (byte_at m ptr / 8 % 2 == 1)) [
  | inl teid ↦ ground (arith, two, piggybacked, at, teid)
  | inr no_teid ↦ ground (arith, two, piggybacked, at, no_teid)
]

udp_next-gtp :
    (m : Memory) (ptr plen : ℕ)
    → be16 m ptr ≢ 53
    → be16 m (ptr + 2) ≢ 53
    → (be16 m (ptr + 2) ≡ 2152) ⊎ (be16 m (ptr + 2) ≡ 2123)
    → (udp_next m ptr plen).type ≡ gtp
unfolding udp_next
udp_next-gtp m ptr plen source dest (inl user) = ground (arith, source, dest, user)
udp_next-gtp m ptr plen source dest (inr control) = ground (arith, source, dest, control)

pub LeadsToGtp-callback :
    (protocol : Protocol) (m : Memory) (caplen ptr plen p : ℕ)
    → LeadsToGtp m protocol ptr p
    → (payload : Payload) × (callback protocol m caplen ptr plen ≡ gives payload)
      × (payload.type ≡ gtp)
      × (payload.out ≡ some p)
unfolding callback
LeadsToGtp-callback protocol m caplen ptr plen p (inl (is_udp, (source, dest), port, at)) = (
  udp_next m ptr plen,
  rw is_udp refl,
  udp_next-gtp m ptr plen source dest port,
  unfold udp_next in (rw at refl),
)
LeadsToGtp-callback protocol m caplen ptr plen p (inr (is_gtp, two, piggybacked, at)) = (
  record { type = gtp; out = some p; plen = plen },
  rw (is_gtp, gtp_next-some m ptr plen p two piggybacked at) refl,
  refl,
  refl,
)
