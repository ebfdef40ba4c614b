-- ===== src/Protocol/Walk.antt =====
-- `header_init`, `next_payload` and `header_walk` of src/packet.c.
pub mod Advance
pub mod Safety
pub mod Termination
pub mod Broken
pub mod Abort
use libcap_utils.Prelude.{
  ℕ, zero, suc, Bool, true, false, Option, none, some, List, [], ◌∷◌, Memory, if◌then◌else◌,
}
use libcap_utils.Protocol.{Protocol, Payload, unknown, done_, ethernet, limited, limited_caplen}
use libcap_utils.Protocol.Descriptor.{header_size, Callback, missing, aborts, gives, callback}

-- `struct header_chunk` beside the packet. `protocol` is of no account while `ptr` is null.
pub record Chunk : Type 0 where
  pub protocol : Protocol
  pub ptr : Option ℕ
  pub truncated : Bool
  pub plen : ℕ

-- What a call of `header_walk` comes to: it returns 1 or 0, or the process aborts.
pub data Result : Type 0 where
  more : Chunk → Result
  stop : Chunk → Result
  abort : Result

unfoldable pub header_init : Chunk
header_init = record { protocol = unknown; ptr = none; truncated = false; plen = 0 }

-- Whether a type lets the walk go on.
abbrev pub goes_on : Protocol → Bool
goes_on unknown = false
goes_on done_ = false
goes_on _ = true

abbrev pub is_unknown : Protocol → Bool
is_unknown unknown = true
is_unknown _ = false

-- The client's loop, `while ( header_walk(&header) )`, with the headers that it sees. `lost` means
-- that the fuel ran out.
pub data Walk : Type 0 where
  walked : List Chunk → Walk
  aborted : Walk
  lost : Walk

abbrev pub seen : Chunk → Walk → Walk
seen header (walked rest) = walked (header ∷ rest)
seen header aborted = aborted
seen header lost = lost

module _ (m : Memory) (caplen : ℕ) where
  -- The last part of `next_payload`: the test of the header's size, for a pointer in the packet.
  unfoldable pub arrive : Chunk → ℕ → Result
  arrive header ptr = elim (header_size header.protocol m ptr) [
    | none ↦ abort
    | some size ↦
        let next = record header {
          truncated = if limited caplen ptr size then true else header.truncated;
        } in
        if goes_on header.protocol then more next else stop next
  ]

  -- After the callback: a type without a descriptor aborts, a pointer that is null or outside of
  -- the packet ends the walk.
  unfoldable pub enter : Chunk → Payload → Result
  enter header payload =
      let header' = record header {
        protocol = payload.type;
        ptr = payload.out;
        plen = payload.plen;
      } in
      if is_unknown payload.type then abort else elim (payload.out) [
        | none ↦ stop (record header' { ptr = none; truncated = true })
        | some ptr ↦
            if limited caplen ptr 0
            then stop (record header' { ptr = none; truncated = true })
            else arrive header' ptr
      ]

  unfoldable pub next_payload : Chunk → ℕ → Result
  next_payload header ptr = elim (callback header.protocol m caplen ptr header.plen) [
    | missing ↦ stop header
    | aborts ↦ if header.truncated then stop header else abort
    | gives payload ↦ if header.truncated then stop header else enter header payload
  ]

  -- The first call, while `ptr` is null, goes to the Ethernet header.
  unfoldable pub header_walk : Chunk → Result
  header_walk header = elim (header.ptr) [
    | some ptr ↦ next_payload header ptr
    | none ↦ more (record header {
      protocol = ethernet;
      ptr = some 0;
      truncated = if limited caplen 0 14 then true else header.truncated;
    })
  ]

  unfoldable pub walk : ℕ → Chunk → Walk
  walk zero header = lost
  walk (suc fuel) header = elim (header_walk header) [
    | more next ↦ seen next (walk fuel next)
    | stop next ↦ walked []
    | abort ↦ aborted
  ]
