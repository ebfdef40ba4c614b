-- ===== src/Protocol/Ipv6.antt =====
-- src/protocols/ipv6.c, as it is built with HAVE_IPV6: the walk over the extension headers.
pub mod Chain
use libcap_utils.Prelude.{
  ◌⊎◌, ℕ, zero, suc, ◌+◌, ◌-◌, ◌*◌, Bool, none, some, Memory, byte_at, ◌==◌, if◌then◌else◌, sub64,
  swap16, ◌≤◌, ◌<◌, ◌≡◌, ◌≢◌, arith,
}
use libcap_utils.Protocol.{Payload, done_, ipproto_next, limited}

-- `is_ipv6_ext`: hop-by-hop options only.
abbrev pub is_ipv6_ext : ℕ → Bool
is_ipv6_ext nxt = nxt == 0

-- What `ipv6_total_header_size` returns, and stores in `*ptr` and `*proto`. `endless` is no result
-- of the code: the fuel ran out.
pub data HeaderSize : Type 0 where
  known : ℕ → ℕ → ℕ → HeaderSize
  limited_size : ℕ → HeaderSize
  endless : HeaderSize

-- The size of the extension header at an address. `ntohs` swaps the bytes of a length that is a
-- single byte.
abbrev pub ext_size : Memory → ℕ → ℕ
ext_size m payload = swap16 (byte_at m (payload + 1)) * 8 + 8

-- The `do` loop over the extension headers.
unfoldable pub ext_loop : ℕ → Memory → ℕ → ℕ → ℕ → HeaderSize
ext_loop zero m caplen payload header_size = endless
ext_loop (suc fuel) m caplen payload header_size =
    let size = ext_size m payload in
    let nxt = byte_at m payload in
    let rest = ext_loop fuel m caplen (payload + size) (header_size + size) in
    if limited caplen payload 2
    then limited_size header_size
    else if limited caplen payload size
    then limited_size header_size
    else if is_ipv6_ext nxt
    then rest
    else known (header_size + size) (payload + size) nxt

-- Every header takes at least eight of the captured bytes, so `caplen` rounds are enough. The first
-- test is on the packet from its beginning.
unfoldable pub ipv6_total_header_size : Memory → ℕ → ℕ → HeaderSize
unfolding ext_loop
ipv6_total_header_size m caplen ip =
    let nxt = byte_at m (ip + 6) in
    let rest = ext_loop (suc caplen) m caplen (ip + 40) 40 in
    if limited caplen 0 40
    then limited_size 0
    else if is_ipv6_ext nxt
    then rest
    else known 40 (ip + 40) nxt

-- `ip->ip6_plen` is read without `ntohs`.
abbrev pub ip6_plen : Memory → ℕ → ℕ
ip6_plen m ip = byte_at m (ip + 4) + 256 * byte_at m (ip + 5)

unfoldable pub ipv6_next : Memory → ℕ → ℕ → ℕ → Payload
unfolding ipv6_total_header_size
ipv6_next m caplen ptr plen = elim (ipv6_total_header_size m caplen ptr) [
  | known header_size payload proto ↦ record {
    type = ipproto_next proto;
    out = some payload;
    plen = sub64 (ip6_plen m ptr + 40) header_size;
  }
  | _ ↦ record { type = done_; out = none; plen = plen }
]

ext_loop-ne-endless :
    (fuel : ℕ) (m : Memory) (caplen payload header_size : ℕ)
    → caplen - payload < fuel
    → ext_loop fuel m caplen payload header_size ≢ endless
unfolding ext_loop
ext_loop-ne-endless zero m caplen payload header_size h = absurd (omega arith)
ext_loop-ne-endless (suc fuel) m caplen payload header_size h =
    let size = ext_size m payload in
    ground (arith, ext_loop-ne-endless fuel m caplen (payload + size) (header_size + size))

ext_loop_known :
    (fuel : ℕ) (m : Memory) (caplen payload header_size : ℕ) {total next proto : ℕ}
    → ext_loop fuel m caplen payload header_size ≡ known total next proto
    → (payload + 8 ≤ next) × (next ≤ caplen) × (next + header_size ≡ payload + total)
unfolding ext_loop
ext_loop_known zero m caplen payload header_size h = absurd (ground arith)
ext_loop_known (suc fuel) m caplen payload header_size {total = total} {next = next} {proto = proto}
      h =
    let size = ext_size m payload in
    ground (
      arith,
      ext_loop_known fuel m caplen (payload + size) (header_size + size) {total = total}
          {next = next} {proto = proto},
    )

-- The walk over the extension headers of IPv6 always ends by one of the tests of the code.
ipv6_total_header_size_ends :
    (m : Memory) (caplen ip : ℕ) → ipv6_total_header_size m caplen ip ≢ endless
unfolding ipv6_total_header_size
ipv6_total_header_size_ends m caplen ip =
    ground (arith, ext_loop-ne-endless (suc caplen) m caplen (ip + 40) 40)

-- Where the walk over the extension headers of IPv6 gives a payload, that begins behind the fixed
-- header and all extension headers, whose sizes are what is returned. The fixed header is captured,
-- counted from the beginning of the packet, and if there is an extension header, then everything in
-- front of the payload is captured.
pub ipv6_total_header_size_known :
    (m : Memory) (caplen ip total next proto : ℕ)
    → ipv6_total_header_size m caplen ip ≡ known total next proto
    → (next ≡ ip + total)
      × (40 ≤ total)
      × (40 ≤ caplen)
      × ((byte_at m (ip + 6) ≢ 0) ⊎ (next ≤ caplen))
unfolding ipv6_total_header_size
ipv6_total_header_size_known m caplen ip total next proto h = ground (
  arith,
  h,
  ext_loop_known (suc caplen) m caplen (ip + 40) 40 {total = total} {next = next} {proto = proto},
)
