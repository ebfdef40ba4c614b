-- ===== src/Tests/Frames.antt =====
-- The theorems on measurement frames, on peeking, on TCP options and on DNS names at concrete inputs.
use libcap_utils.Prelude.{
  ltb, ℕ, ◌+◌, ◌%◌, ◌≡◌, refl, [], ◌∷◌, ◌++◌, replicate, none, some, Option, Bool, true, false,
  ◌==◌, if◌then◌else◌, arith, Memory, memory_of, be32, be16, le32,
}
use libcap_utils.Filter.{CapHeader}
use libcap_utils.Protocol.DnsName.{dns_name}
use libcap_utils.Protocol.DnsName.Bounds.{IsFine, dns_name-IsFine}
use libcap_utils.Protocol.TcpOptions.{tcp_options}
use libcap_utils.Protocol.TcpOptions.Bounds.{IsBounded, tcp_options-IsBounded}
use libcap_utils.Stream.{Stream, Status, ok, Matcher, stream_alloc}
use libcap_utils.Stream.Fill.{IsWellFormed}
use libcap_utils.Stream.Read.{Situation}
use libcap_utils.Stream.Peek.{IsBuffered, stream_peek}
use libcap_utils.Stream.Peek.Keeps.{stream_peek_stuck}
use libcap_utils.Stream.Sequence.{valid_framesize, sendhead_size}
use libcap_utils.Stream.Sequence.Laws.{
  receive_all, numbers, receive_all-numbers, match_inc_seqnr_twice, valid_framesize-Holds, Holds,
  total,
}
use libcap_utils.Tests.{plain}
use libcap_utils.Tests.Streams.{file, packet}

receive_all-numbers_example :
    receive_all false 65533 (numbers 3 65533)
    ≡ (if ltb 0xFFFF (65533 + 3) then none else some ((65533 + 3) % 0xFFFF))
receive_all-numbers_example = receive_all-numbers false 3 65533 (omega arith)

match_inc_seqnr_twice_example :
    receive_all true 7 (7 ∷ 7 ∷ []) ≡ (if 7 == 0xFFFE then none else some (7 + 1))
match_inc_seqnr_twice_example = match_inc_seqnr_twice 7 (omega arith)

-- A frame that says that it holds two packets, of three bytes and of two.
abbrev two_packets : Memory
two_packets =
    memory_of ((0 ∷ 0 ∷ 0 ∷ 1 ∷ 0 ∷ 0 ∷ 0 ∷ 2 ∷ []) ++ replicate 8 0 ++ packet 3 ++ packet 2)

two_packets-Holds : Holds two_packets sendhead_size (3 ∷ 2 ∷ [])
unfolding le32
two_packets-Holds = (refl, omega arith, (refl, omega arith, tt))

valid_framesize-Holds_example : valid_framesize 107 two_packets ≡ (107 == 30 + total (3 ∷ 2 ∷ []))
unfolding be32 be16
valid_framesize-Holds_example =
    valid_framesize-Holds (3 ∷ 2 ∷ []) two_packets 107 refl (omega arith) two_packets-Holds

tcp_options-IsBounded_example : IsBounded plain (34 + 20) 58 (tcp_options plain 58 34)
tcp_options-IsBounded_example = tcp_options-IsBounded plain 58 34

-- A stream whose buffer holds a packet.
abbrev loaded : Stream
loaded = record (stream_alloc 50 1500) { buffer = memory_of (packet 3); write_pos = 39 }

loaded-IsWellFormed : IsWellFormed loaded
unfolding stream_alloc
loaded-IsWellFormed = record { in_order = omega arith; within = omega arith; small = omega arith }

abbrev reject : ℕ → CapHeader → Option (Bool × ℕ)
reject n head = some (false, n + 1)

-- A filter that rejects every packet, and counts them.
abbrev nothing : Matcher
nothing = record { State = ℕ; apply = reject }

loaded-IsBuffered : IsBuffered file nothing loaded
unfolding stream_alloc IsBuffered le32
loaded-IsBuffered = (omega arith, omega arith)

stream_peek_stuck_example : stream_peek file nothing 9 loaded (some 0) [] ≡ none
stream_peek_stuck_example =
    stream_peek_stuck file nothing 9 loaded 0 [] (λ head n. (n + 1, refl)) loaded-IsWellFormed
      loaded-IsBuffered

abbrev shown : Status × Situation file nothing
shown = (ok, record { data_at = some 0; stream = loaded; filter = none; world = [] })

-- A name that refers to itself, in a packet of 14 bytes.
abbrev loop : Memory
loop = memory_of (replicate 12 0 ++ 192 ∷ 12 ∷ [])

dns_name-IsFine_example : IsFine 128 (dns_name 128 loop 12 14)
dns_name-IsFine_example = dns_name-IsFine 128 loop 12 14 (omega arith) (omega arith)
