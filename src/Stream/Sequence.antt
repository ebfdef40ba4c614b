-- ===== src/Stream/Sequence.antt =====
-- Measurement frames from the network, in src/stream.c: `match_inc_seqnr` for their sequence numbers,
-- `sendheader_bytes` and `valid_framesize` for their size, and `is_valid_version`.
pub mod Laws
use libcap_utils.Prelude.{
  ℕ, zero, suc, ◌+◌, ◌^◌, Bool, true, false, Option, none, some, Memory, be32, ◌==◌, ◌&&◌, leb, ltb,
  if◌then◌else◌, u32, u64,
}
use libcap_utils.Stream.{caplen_at, packet_size_at}

-- `got` is `ntohl(sh->sequencenr)`; what is returned is the new value of `*seq`. `none` is `abort`.
-- The warnings are left out.
unfoldable pub match_inc_seqnr : Bool → ℕ → ℕ → Option ℕ
match_inc_seqnr if_loopback seq got =
    let next = u64 (seq + 1) in
    if if_loopback && u32 seq == u32 (got + 1)
    then some seq
    else if u32 seq == got
    then some (if leb 0xFFFF next then 0 else next)
    else none

-- `sizeof(struct ethhdr) + sizeof(struct sendhead)`
abbrev pub sendhead_size : ℕ
sendhead_size = 16

abbrev pub frame_header_size : ℕ
frame_header_size = 14 + sendhead_size

-- The loop over `n` packets, with `expected` so far. A packet without captured bytes makes the
-- frame invalid.
unfoldable pub packet_bytes : ℕ → Memory → ℕ → ℕ → ℕ
packet_bytes zero m ptr expected = expected
packet_bytes (suc n) m ptr expected =
    let size = packet_size_at m ptr in
    let rest = packet_bytes n m (ptr + size) (expected + size) in
    if caplen_at m ptr == 0 then 0 else rest

-- Addresses are counted from the `struct sendhead`. `nopkts` is converted to an int: from 2 ^ 31 on
-- it is negative, and the loop has no round.
unfoldable pub sendheader_bytes : Memory → ℕ
unfolding packet_bytes
sendheader_bytes m =
    let nopkts = be32 m 4 in
    let n = if ltb nopkts (2 ^ 31) then nopkts else 0 in
    packet_bytes n m sendhead_size frame_header_size

unfoldable pub valid_framesize : ℕ → Memory → Bool
unfolding sendheader_bytes
valid_framesize actual m = actual == sendheader_bytes m

-- VERSION_MAJOR and VERSION_MINOR come from the build.
unfoldable pub is_valid_version : ℕ → ℕ → ℕ → ℕ → Bool
is_valid_version version_major version_minor major minor =
    leb major version_major && leb minor version_minor
