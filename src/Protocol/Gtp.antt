-- ===== src/Protocol/Gtp.antt =====
-- src/protocols/gtp.c. `none` is `abort`.
use libcap_utils.Prelude.{
  ℕ, ◌+◌, ◌/◌, ◌%◌, ◌^◌, Bool, true, false, Option, none, some, Memory, byte_at, ◌==◌, ◌&&◌, ◌||◌,
  if◌then◌else◌,
}
use libcap_utils.Protocol.{Payload, data_, gtp, ipv4, ipv6}
use libcap_utils.Protocol.Next.{nibble}

-- `enum gtp_version`
pub data Version : Type 0 where
  v1 v2 prime : Version

-- Bit `k` of the first byte of the header.
abbrev pub flag : Memory → ℕ → ℕ → ℕ
flag m ptr k = byte_at m ptr / 2 ^ k % 2

unfoldable pub gtp_version : Memory → ℕ → Option Version
gtp_version m ptr =
    let version = byte_at m ptr / 2 ^ 5 in
    if version == 1
    then (if flag m ptr 4 == 1 then some Version.v1 else some Version.prime)
    else if version == 2
    then some Version.v2
    else none

-- All three layouts have the message type in the second byte.
unfoldable pub gtp_message_type : Memory → ℕ → ℕ
gtp_message_type m ptr = byte_at m (ptr + 1)

header_size_of : Version → Memory → ℕ → Option ℕ
header_size_of Version.v1 m ptr =
    if flag m ptr 2 == 1
    then none
    else if flag m ptr 1 == 1 || flag m ptr 0 == 1
    then some 12
    else some 8
header_size_of Version.v2 m ptr = some (4 + (if flag m ptr 3 == 1 then 4 else 0))
header_size_of Version.prime m ptr = some 6

unfoldable pub gtp_header_size : Memory → ℕ → Option ℕ
unfolding gtp_version header_size_of
gtp_header_size m ptr = elim (gtp_version m ptr) [
  | none ↦ none
  | some version ↦ header_size_of version m ptr
]

abbrev pub is_v2 : Option Version → Bool
is_v2 (some Version.v2) = true
is_v2 _ = false

unfoldable pub gtp_next : Memory → ℕ → ℕ → Option Payload
unfolding gtp_header_size gtp_message_type
gtp_next m ptr plen = elim (gtp_header_size m ptr) [
  | none ↦ none
  | some size ↦
      let payload = ptr + size in
      some (record {
        type =
            if is_v2 (gtp_version m ptr) && flag m ptr 4 == 1
            then gtp
            else if gtp_message_type m ptr == 255
            then (if nibble m payload == 4
                then ipv4
                else if nibble m payload == 6
                then ipv6
                else data_)
            else data_;
        out = some payload;
        plen = plen;
      })
]
