-- ===== src/Stream/Sequence/Laws.antt =====
-- Which sequences of measurement frames src/stream.c accepts.
use libcap_utils.Prelude.{
  ℕ, zero, suc, ◌+◌, ◌%◌, ◌^◌, ◌≤◌, ◌<◌, ◌≡◌, Bool, true, Option, none, some, List, [], ◌∷◌, length,
  Memory, be32, ltb, Bool-cases, inl, inr, refl, ◌∙◌, ==_iff, ◌==◌, if◌then◌else◌, arith,
}
use libcap_utils.Stream.{caplen_at}
use libcap_utils.Stream.Sequence.{
  match_inc_seqnr, packet_bytes, sendheader_bytes, valid_framesize, sendhead_size,
  frame_header_size,
}

-- The receiver over the numbers of the frames that come in.
unfoldable pub receive_all : Bool → ℕ → List ℕ → Option ℕ
receive_all if_loopback seq [] = some seq
receive_all if_loopback seq (got ∷ rest) = elim (match_inc_seqnr if_loopback seq got) [
  | none ↦ none
  | some next ↦ receive_all if_loopback next rest
]

-- The numbers of `n` frames that follow each other.
abbrev pub numbers : ℕ → ℕ → List ℕ
numbers zero seq = []
numbers (suc n) seq = seq ∷ numbers n (seq + 1)

match_inc_seqnr-next :
    (if_loopback : Bool) (seq : ℕ)
    → seq < 0xFFFF
    → match_inc_seqnr if_loopback seq seq ≡ some ((seq + 1) % 0xFFFF)
unfolding match_inc_seqnr
match_inc_seqnr-next if_loopback seq h = ground arith

-- Behind the number 0xFFFE the receiver waits for 0.
receive_all-wrapped :
    (if_loopback : Bool) (n : ℕ)
    → receive_all if_loopback 0 (numbers n 0xFFFF) ≡ (if ltb 0 n then none else some 0)
unfolding receive_all match_inc_seqnr
receive_all-wrapped if_loopback zero = refl
receive_all-wrapped if_loopback (suc n) = ground arith

-- From a number below 0xFFFF on, frames whose numbers follow each other are all accepted as long as
-- their numbers are below 0xFFFF, and then the number behind the last is expected, or 0 behind 0xFFFE.
-- If there are more of them, the process aborts.
pub receive_all-numbers :
    (if_loopback : Bool) (n seq : ℕ)
    → seq < 0xFFFF
    → receive_all if_loopback seq (numbers n seq)
      ≡ (if ltb 0xFFFF (seq + n) then none else some ((seq + n) % 0xFFFF))
unfolding receive_all
receive_all-numbers if_loopback zero seq h = ground arith
receive_all-numbers if_loopback (suc n) seq h =
    let e : seq + suc n ≡ seq + 1 + n = omega arith in
    let first = match_inc_seqnr-next if_loopback seq h in
    elim (Bool-cases (seq == 0xFFFE)) [
      | inl last ↦
          let at : seq ≡ 0xFFFE = (==_iff _ _).0 last in
          rw (receive_all, first, e, at) (receive_all-wrapped if_loopback n ∙ ground arith)
      | inr other ↦
          let small : seq + 1 < 0xFFFF = ground (arith, h, other) in
          let low : (seq + 1) % 0xFFFF ≡ seq + 1 = omega (arith, small) in
          rw (receive_all, first, e, low) (receive_all-numbers if_loopback n (seq + 1) small)
    ]

-- On a loopback device the second copy of a frame is ignored, except for the last number before the
-- wrap, where it aborts.
pub match_inc_seqnr_twice :
    (seq : ℕ)
    → seq < 0xFFFF
    → receive_all true seq (seq ∷ seq ∷ []) ≡ (if seq == 0xFFFE then none else some (seq + 1))
unfolding receive_all match_inc_seqnr
match_inc_seqnr_twice seq h = ground arith

-- Packets with these captured lengths, one behind the other.
abbrev pub Holds : Memory → ℕ → List ℕ → Type 0
Holds m at [] = Unit {0}
Holds m at (c ∷ cs) = (caplen_at m at ≡ c) × (1 ≤ c) × Holds m (at + (36 + c)) cs

abbrev pub total : List ℕ → ℕ
total [] = 0
total (c ∷ cs) = 36 + c + total cs

packet_bytes-Holds :
    (cs : List ℕ) (m : Memory) (ptr expected : ℕ)
    → Holds m ptr cs
    → packet_bytes (length cs) m ptr expected ≡ expected + total cs
unfolding packet_bytes
packet_bytes-Holds [] m ptr expected h = omega arith
packet_bytes-Holds (c ∷ cs) m ptr expected (e, pos, h) =
    let ih = packet_bytes-Holds cs m (ptr + (36 + c)) (expected + (36 + c)) h in
    rw e (ground (arith, ih))

-- A frame that holds as many packets as it says, none of them empty, is valid exactly if its size is
-- that of its headers and packets.
pub valid_framesize-Holds :
    (cs : List ℕ) (m : Memory) (actual : ℕ)
    → be32 m 4 ≡ length cs
    → length cs < 2 ^ 31
    → Holds m sendhead_size cs
    → valid_framesize actual m ≡ (actual == 30 + total cs)
unfolding valid_framesize sendheader_bytes
valid_framesize-Holds cs m actual n small h =
    let sum = packet_bytes-Holds cs m sendhead_size frame_header_size h in
    ground (arith, n, small, sum)
