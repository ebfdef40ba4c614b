-- ===== src/Protocol/Walk/Abort.antt =====
-- Where `header_walk` of src/packet.c ends the process.
use libcap_utils.Prelude.{
  ℕ, ◌≤◌, ◌≡◌, refl, sym, ◌∙◌, false, Option, none, some, Memory, arith, ◌⊎◌, ◌↔◌, inl, inr,
}
use libcap_utils.Protocol.{Protocol, Payload, gtp}
use libcap_utils.Protocol.Gtp.{gtp_header_size, gtp_next}
use libcap_utils.Protocol.Descriptor.{
  header_size, size, Callback, missing, aborts, gives, callback, or_abort,
}
use libcap_utils.Protocol.Walk.Broken.{
  HasNoSize, gtp_header_size-HasNoSize, HasNoSize-gtp_header_size, LeadsToGtp, callback-LeadsToGtp,
  LeadsToGtp-callback,
}
use libcap_utils.Protocol.Walk.{Chunk, abort, is_unknown, arrive, enter, next_payload, header_walk}
use libcap_utils.Protocol.Walk.Advance.{Moves, callback-Moves}
use libcap_utils.Protocol.Walk.Safety.{header_walk_ptr}

-- Only GTP has a header without a size.
header_size-none :
    (protocol : Protocol) (m : Memory) (ptr : ℕ)
    → header_size protocol m ptr ≡ none
    → (protocol ≡ gtp) × (gtp_header_size m ptr ≡ none)
unfolding header_size
header_size-none gtp m ptr h = (refl, h)
header_size-none _ m ptr h = absurd (ground arith)

gtp_next-none :
    (m : Memory) (ptr plen : ℕ) → gtp_next m ptr plen ≡ none → gtp_header_size m ptr ≡ none
unfolding gtp_next
gtp_next-none m ptr plen h = ground (arith, h)

or_abort-aborts : (o : Option Payload) → or_abort o ≡ aborts → o ≡ none
or_abort-aborts none h = refl
or_abort-aborts (some p) h = absurd (ground arith)

-- Only GTP has a callback that aborts.
callback-aborts :
    (protocol : Protocol) (m : Memory) (caplen ptr plen : ℕ)
    → callback protocol m caplen ptr plen ≡ aborts
    → (protocol ≡ gtp) × (gtp_header_size m ptr ≡ none)
unfolding callback
callback-aborts gtp m caplen ptr plen h =
    (refl, gtp_next-none m ptr plen (or_abort-aborts (gtp_next m ptr plen) h))
callback-aborts _ m caplen ptr plen h = absurd (ground arith)

-- The header of a walk, not marked as truncated, is a GTP header without a size, or leads to one
-- within the captured bytes.
unfoldable pub IsBroken : Memory → ℕ → Chunk → Type 0
IsBroken m caplen header =
    (header.truncated ≡ false)
    × (ptr : ℕ) × (header.ptr ≡ some ptr)
    × (((header.protocol ≡ gtp) × HasNoSize m ptr)
        ⊎ ((p : ℕ) × LeadsToGtp m header.protocol ptr p × (p ≤ caplen) × HasNoSize m p))

arrive-abort :
    (m : Memory) (caplen : ℕ) (header : Chunk) (ptr : ℕ)
    → arrive m caplen header ptr ≡ abort
    → header_size header.protocol m ptr ≡ none
unfolding arrive
arrive-abort m caplen header ptr h = ground (arith, h)

enter_arrives :
    (m : Memory) (caplen : ℕ) (header : Chunk) (payload : Payload) (ptr : ℕ)
    → payload.out ≡ some ptr
    → is_unknown payload.type ≡ false
    → enter m caplen header payload ≡ abort
    → (ptr ≤ caplen)
      × (arrive m caplen
            (record header { protocol = payload.type; ptr = payload.out; plen = payload.plen })
            ptr
          ≡ abort)
unfolding enter
enter_arrives m caplen header payload ptr e k h = ground (arith, e, k, h)

enter-abort :
    (m : Memory) (caplen : ℕ) (header : Chunk) (payload : Payload) (out : Option ℕ)
    → payload.out ≡ out
    → is_unknown payload.type ≡ false
    → enter m caplen header payload ≡ abort
    → (p : ℕ) × (payload.out ≡ some p) × (p ≤ caplen) × (header_size payload.type m p ≡ none)
unfolding enter
enter-abort m caplen header payload none e k h = absurd (ground (arith, e, k, h))
enter-abort m caplen header payload (some p) e k h =
    let header' = record header {
      protocol = payload.type;
      ptr = payload.out;
      plen = payload.plen;
    } in
    let (b, a) = enter_arrives m caplen header payload p e k h in
    (p, e, b, arrive-abort m caplen header' p a)

next_payload-abort :
    (m : Memory) (caplen : ℕ) (header : Chunk) (ptr : ℕ) (result : Callback)
    → header.ptr ≡ some ptr
    → callback header.protocol m caplen ptr header.plen ≡ result
    → next_payload m caplen header ptr ≡ abort
    → IsBroken m caplen header
unfolding next_payload IsBroken Moves
next_payload-abort m caplen header ptr missing at e h = absurd (ground (arith, e, h))
next_payload-abort m caplen header ptr aborts at e h =
    let (protocol, broken) = callback-aborts header.protocol m caplen ptr header.plen e in
    (ground (arith, e, h), ptr, at, inl (protocol, gtp_header_size-HasNoSize m ptr broken))
next_payload-abort m caplen header ptr (gives payload) at e h =
    let entered : enter m caplen header payload ≡ abort = ground (arith, e, h) in
    let moves = callback-Moves header.protocol m caplen ptr header.plen payload e in
    let (p, out, b, size) = enter-abort m caplen header payload payload.out refl moves.0 entered in
    let (type, broken) = header_size-none payload.type m p size in
    (
      ground (arith, e, h),
      ptr,
      at,
      inr (
        p,
        callback-LeadsToGtp header.protocol m caplen ptr header.plen p payload e type out,
        b,
        gtp_header_size-HasNoSize m p broken,
      ),
    )

header_walk-abort_at :
    (m : Memory) (caplen : ℕ) (header : Chunk) (at : Option ℕ)
    → header.ptr ≡ at
    → header_walk m caplen header ≡ abort
    → IsBroken m caplen header
unfolding header_walk
header_walk-abort_at m caplen header none e h = absurd (ground (arith, e, h))
header_walk-abort_at m caplen header (some ptr) e h =
    next_payload-abort m caplen header ptr (callback header.protocol m caplen ptr header.plen) e
      refl (sym (header_walk_ptr m caplen header ptr e) ∙ h)

-- A payload that is a GTP header without a size.
enter-broken :
    (m : Memory) (caplen : ℕ) (header : Chunk) (payload : Payload) (p : ℕ)
    → payload.type ≡ gtp
    → payload.out ≡ some p
    → p ≤ caplen
    → gtp_header_size m p ≡ none
    → enter m caplen header payload ≡ abort
unfolding enter arrive header_size
enter-broken m caplen header payload p type out fits broken =
    ground (arith, type, out, fits, broken)

IsBroken-abort :
    (m : Memory) (caplen : ℕ) (header : Chunk)
    → IsBroken m caplen header
    → header_walk m caplen header ≡ abort
unfolding IsBroken next_payload callback gtp_next enter
IsBroken-abort m caplen header (whole, ptr, at, inl (protocol, broken)) =
    let none_size = HasNoSize-gtp_header_size m ptr broken in
    header_walk_ptr m caplen header ptr at ∙ ground (arith, whole, protocol, none_size)
IsBroken-abort m caplen header (whole, ptr, at, inr (p, leads, fits, broken)) =
    let (payload, e, type, out) =
      LeadsToGtp-callback header.protocol m caplen ptr header.plen p leads in
    let entered =
      enter-broken m caplen header payload p type out fits (HasNoSize-gtp_header_size m p broken) in
    header_walk_ptr m caplen header ptr at ∙ rw (next_payload, e, whole) entered

-- A call of `header_walk` ends the process exactly at a header that is not marked as truncated and is
-- a GTP header without a size, or leads to one that begins within the captured bytes: UDP to port 2152
-- or 2123 and with no port 53 leads to the bytes behind its eight, and GTP of version 2 that says so
-- leads to those behind its header. A GTP header has no size if its version is neither 1 nor 2, and in
-- version 1 if it has the flags of the protocol type and of an extension header.
pub header_walk-IsBroken :
    (m : Memory) (caplen : ℕ) (header : Chunk)
    → (header_walk m caplen header ≡ abort) ↔ IsBroken m caplen header
header_walk-IsBroken m caplen header =
    (header_walk-abort_at m caplen header header.ptr refl, IsBroken-abort m caplen header)
