-- ===== src/Protocol/Walk/Advance.antt =====
-- What the callbacks of src/protocols/*.c have in common: how far they move the pointer, and which
-- types they give.
use libcap_utils.Prelude.{
  ℕ, suc, ◌+◌, ◌*◌, ◌%◌, ◌^◌, true, false, Option, none, some, Memory, byte_at, be16, be32, ◌≤◌,
  ◌≡◌, arith, refl, sym, ap,
}
use libcap_utils.Protocol.{
  Protocol, Payload, unknown, done_, data_, dns, ethernet, gre, gtp, ipv4, ipv6, mpls, pw, tcp, udp,
  vlan, ethertype_next, ipproto_next,
}
use libcap_utils.Protocol.Next.{
  ethernet_next, vlan_next, ipv4_next, mpls_next_payload, pw_next_payload, gre_next, tcp_next,
  udp_next, last_next,
}
use libcap_utils.Protocol.Gtp.{gtp_header_size, gtp_next}
use libcap_utils.Protocol.Ipv6.{
  ipv6_next, ipv6_total_header_size, ipv6_total_header_size_known, HeaderSize, known, limited_size,
  endless,
}
use libcap_utils.Protocol.Descriptor.{Callback, missing, aborts, gives, callback, or_abort}
use libcap_utils.Protocol.Walk.{goes_on, is_unknown}

-- Whether a type has a callback that can let the walk go on, as a number.
unfoldable pub rank : Protocol → ℕ
rank unknown = 0
rank done_ = 0
rank data_ = 0
rank dns = 0
rank _ = 1

pub rank≤1 : (protocol : Protocol) → rank protocol ≤ 1
unfolding rank
rank≤1 protocol = ground arith

-- A payload moves the walk on from a pointer: by at least one byte or else to a type that has no
-- callback, and its type has a descriptor.
unfoldable pub Moves : ℕ → ℕ → Payload → Type 0
Moves rank_before ptr payload =
    (is_unknown payload.type ≡ false)
    × ((p : ℕ)
        → payload.out ≡ some p
        → goes_on payload.type ≡ true
        → suc (2 * ptr) + rank payload.type ≤ 2 * p + rank_before)

pub tcp_next-Moves : (m : Memory) (ptr plen : ℕ) → Moves 1 ptr (tcp_next m ptr plen)
unfolding tcp_next Moves rank
tcp_next-Moves m ptr plen = ground arith

ethertype_next-known : (e : ℕ) → is_unknown (ethertype_next e) ≡ false
unfolding ethertype_next
ethertype_next-known e = ground arith

ipproto_next-known : (e : ℕ) → is_unknown (ipproto_next e) ≡ false
unfolding ipproto_next
ipproto_next-known e = ground arith

ethernet_next-Moves : (m : Memory) (ptr plen : ℕ) → Moves 1 ptr (ethernet_next m ptr plen)
unfolding ethernet_next Moves
ethernet_next-Moves m ptr plen =
    let type = ethertype_next (be16 m (ptr + 12)) in
    ground (arith, ethertype_next-known (be16 m (ptr + 12)), rank≤1 type)

vlan_next-Moves : (m : Memory) (ptr plen : ℕ) → Moves 1 ptr (vlan_next m ptr plen)
unfolding vlan_next Moves
vlan_next-Moves m ptr plen =
    let type = ethertype_next (be16 m (ptr + 2)) in
    ground (arith, ethertype_next-known (be16 m (ptr + 2)), rank≤1 type)

ipv4_next-Moves : (m : Memory) (ptr plen : ℕ) → Moves 1 ptr (ipv4_next m ptr plen)
unfolding ipv4_next Moves
ipv4_next-Moves m ptr plen =
    ground
      (arith, ipproto_next-known (byte_at m (ptr + 9)), rank≤1 (ipproto_next (byte_at m (ptr + 9))))

ipv6_next-Moves_at :
    (m : Memory) (caplen ptr plen : ℕ) (header : HeaderSize)
    → ipv6_total_header_size m caplen ptr ≡ header
    → Moves 1 ptr (ipv6_next m caplen ptr plen)
unfolding ipv6_next Moves
ipv6_next-Moves_at m caplen ptr plen (known total next proto) h =
    let type = ipproto_next proto in
    let size = ipv6_total_header_size_known m caplen ptr total next proto h in
    ground (arith, h, ipproto_next-known proto, rank≤1 type)
ipv6_next-Moves_at m caplen ptr plen (limited_size n) h = ground (arith, h)
ipv6_next-Moves_at m caplen ptr plen endless h = ground (arith, h)

ipv6_next-Moves : (m : Memory) (caplen ptr plen : ℕ) → Moves 1 ptr (ipv6_next m caplen ptr plen)
ipv6_next-Moves m caplen ptr plen =
    ipv6_next-Moves_at m caplen ptr plen (ipv6_total_header_size m caplen ptr) refl

mpls-Moves : (m : Memory) (ptr plen : ℕ) → Moves 1 ptr (mpls_next_payload m ptr plen)
unfolding mpls_next_payload Moves rank
mpls-Moves m ptr plen = ground arith

pw-Moves : (m : Memory) (ptr plen : ℕ) → Moves 1 ptr (pw_next_payload m ptr plen)
unfolding pw_next_payload Moves rank
pw-Moves m ptr plen = ground arith

gre-Moves : (m : Memory) (ptr plen : ℕ) → Moves 1 ptr (gre_next m ptr plen)
unfolding gre_next Moves
gre-Moves m ptr plen =
    let type = ethertype_next (be32 m ptr % 2 ^ 16) in
    ground (arith, ethertype_next-known (be32 m ptr % 2 ^ 16), rank≤1 type)

udp-Moves : (m : Memory) (ptr plen : ℕ) → Moves 1 ptr (udp_next m ptr plen)
unfolding udp_next Moves rank
udp-Moves m ptr plen = ground arith

last_next-Moves : (m : Memory) (ptr plen : ℕ) → Moves 1 ptr (last_next m ptr plen)
unfolding last_next Moves rank
last_next-Moves m ptr plen = ground arith

gtp_header_size-pos : (m : Memory) (ptr size : ℕ) → gtp_header_size m ptr ≡ some size → 4 ≤ size
unfolding gtp_header_size
gtp_header_size-pos m ptr size h = ground arith

gtp-Moves :
    (m : Memory) (ptr plen : ℕ) (payload : Payload)
    → gtp_next m ptr plen ≡ some payload
    → Moves 1 ptr payload
unfolding gtp_next gtp_header_size Moves rank
gtp-Moves m ptr plen payload h = ground (arith, gtp_header_size-pos m ptr)

given : Payload → Callback → Payload
given p missing = p
given p aborts = p
given _ (gives p) = p

Moves-gives :
    (n ptr : ℕ) {p payload : Payload}
    → Moves n ptr p
    → gives p ≡ gives payload
    → Moves n ptr payload
unfolding given
Moves-gives n ptr {p = p} moves h = rw (sym (ap (given p) h)) moves

or_abort-gives :
    (o : Option Payload) {payload : Payload} → or_abort o ≡ gives payload → o ≡ some payload
unfolding given
or_abort-gives none h = absurd (ground arith)
or_abort-gives (some p) h = ap some (ap (given p) h)

pub callback-Moves :
    (protocol : Protocol) (m : Memory) (caplen ptr plen : ℕ) (payload : Payload)
    → callback protocol m caplen ptr plen ≡ gives payload
    → Moves (rank protocol) ptr payload
unfolding callback rank
callback-Moves unknown m caplen ptr plen payload h = absurd (ground arith)
callback-Moves done_ m caplen ptr plen payload h = absurd (ground arith)
callback-Moves data_ m caplen ptr plen payload h = absurd (ground arith)
callback-Moves dns m caplen ptr plen payload h = absurd (ground arith)
callback-Moves ethernet m caplen ptr plen payload h =
    Moves-gives 1 ptr (ethernet_next-Moves m ptr plen) h
callback-Moves vlan m caplen ptr plen payload h = Moves-gives 1 ptr (vlan_next-Moves m ptr plen) h
callback-Moves ipv4 m caplen ptr plen payload h = Moves-gives 1 ptr (ipv4_next-Moves m ptr plen) h
callback-Moves ipv6 m caplen ptr plen payload h =
    Moves-gives 1 ptr (ipv6_next-Moves m caplen ptr plen) h
callback-Moves mpls m caplen ptr plen payload h = Moves-gives 1 ptr (mpls-Moves m ptr plen) h
callback-Moves pw m caplen ptr plen payload h = Moves-gives 1 ptr (pw-Moves m ptr plen) h
callback-Moves gre m caplen ptr plen payload h = Moves-gives 1 ptr (gre-Moves m ptr plen) h
callback-Moves tcp m caplen ptr plen payload h = Moves-gives 1 ptr (tcp_next-Moves m ptr plen) h
callback-Moves udp m caplen ptr plen payload h = Moves-gives 1 ptr (udp-Moves m ptr plen) h
callback-Moves gtp m caplen ptr plen payload h =
    gtp-Moves m ptr plen payload (or_abort-gives (gtp_next m ptr plen) h)
callback-Moves _ m caplen ptr plen payload h = Moves-gives 1 ptr (last_next-Moves m ptr plen) h
