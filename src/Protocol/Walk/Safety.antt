-- ===== src/Protocol/Walk/Safety.antt =====
-- Where `header_walk` of src/packet.c leaves its pointer.
use libcap_utils.Prelude.{
  ℕ, ◌+◌, true, ◌⊎◌, Option, none, some, Memory, ◌≤◌, ◌≡◌, arith, refl, sym, ◌∙◌,
}
use libcap_utils.Protocol.{Payload, ethernet}
use libcap_utils.Protocol.Descriptor.{header_size, size, Callback, missing, aborts, gives, callback}
use libcap_utils.Protocol.Walk.{Chunk, more, goes_on, arrive, enter, next_payload, header_walk}

-- A header that the walk stops at: the pointer is within the captured bytes, and so is the whole
-- header unless it is marked as truncated.
unfoldable pub IsInside : Memory → ℕ → Chunk → Type 0
IsInside m caplen c =
    (p : ℕ) × (n : ℕ) × (c.ptr ≡ some p)
    × (header_size c.protocol m p ≡ some n)
    × (p ≤ caplen)
    × ((c.truncated ≡ true) ⊎ (p + n ≤ caplen))

-- What is known when `next_payload` returns 1 from a payload.
pub record Entered (m : Memory) (caplen : ℕ) (payload : Payload) (next : Chunk) : Type 0 where
  pub at : ℕ
  pub out : payload.out ≡ some at
  pub ptr : next.ptr ≡ some at
  pub type : next.protocol ≡ payload.type
  pub bound : at ≤ caplen
  pub going : goes_on payload.type ≡ true
  pub inside : IsInside m caplen next

-- The pointer, the type and the mark that `arrive` leaves, given the size of the header.
arrive-more_size :
    (m : Memory) (caplen : ℕ) (header : Chunk) (ptr n : ℕ) (next : Chunk)
    → header_size header.protocol m ptr ≡ some n
    → arrive m caplen header ptr ≡ more next
    → (next.ptr ≡ header.ptr)
      × (next.protocol ≡ header.protocol)
      × (goes_on header.protocol ≡ true)
      × ((next.truncated ≡ true) ⊎ (ptr + n ≤ caplen))
unfolding arrive
arrive-more_size m caplen header ptr n next h s = ground (arith, h)

arrive-IsInside :
    (m : Memory) (caplen : ℕ) (header : Chunk) (ptr : ℕ) (size : Option ℕ) (next : Chunk)
    → header_size header.protocol m ptr ≡ size
    → header.ptr ≡ some ptr
    → ptr ≤ caplen
    → arrive m caplen header ptr ≡ more next
    → (next.ptr ≡ some ptr)
      × (next.protocol ≡ header.protocol)
      × (goes_on header.protocol ≡ true)
      × IsInside m caplen next
unfolding arrive IsInside
arrive-IsInside m caplen header ptr none next h e b s = absurd (ground (arith, h))
arrive-IsInside m caplen header ptr (some n) next h e b s =
    let (same, type, going, fits) = arrive-more_size m caplen header ptr n next h s in
    (same ∙ e, type, going, (ptr, n, same ∙ e, rw type h, b, fits))

-- A payload that the walk enters is within the captured bytes.
enter-arrive :
    (m : Memory) (caplen : ℕ) (header : Chunk) (payload : Payload) (ptr : ℕ) (next : Chunk)
    → payload.out ≡ some ptr
    → enter m caplen header payload ≡ more next
    → (ptr ≤ caplen)
      × (arrive m caplen
            (record header { protocol = payload.type; ptr = payload.out; plen = payload.plen })
            ptr
          ≡ more next)
unfolding enter
enter-arrive m caplen header payload ptr next h s = ground (arith, h)

enter-Entered :
    (m : Memory) (caplen : ℕ) (header : Chunk) (payload : Payload) (out : Option ℕ) (next : Chunk)
    → payload.out ≡ out
    → enter m caplen header payload ≡ more next
    → Entered m caplen payload next
unfolding enter
enter-Entered m caplen header payload none next h s = absurd (ground (arith, h))
enter-Entered m caplen header payload (some ptr) next h s =
    let header' = record header {
      protocol = payload.type;
      ptr = payload.out;
      plen = payload.plen;
    } in
    let (b, a) = enter-arrive m caplen header payload ptr next h s in
    let (same, type, going, inside) =
      arrive-IsInside m caplen header' ptr (header_size payload.type m ptr) next refl h b a in
    record { at = ptr; out = h; ptr = same; type = type; bound = b; going = going; inside = inside }

-- What `next_payload` has done when it returns 1.
next_payload-more :
    (m : Memory) (caplen : ℕ) (header : Chunk) (ptr : ℕ) (result : Callback) (next : Chunk)
    → callback header.protocol m caplen ptr header.plen ≡ result
    → next_payload m caplen header ptr ≡ more next
    → (payload : Payload) × (result ≡ gives payload) × (enter m caplen header payload ≡ more next)
unfolding next_payload
next_payload-more m caplen header ptr missing next h s = absurd (ground (arith, h))
next_payload-more m caplen header ptr aborts next h s = absurd (ground (arith, h))
next_payload-more m caplen header ptr (gives payload) next h s = (payload, refl, ground (arith, h))

first_header :
    (m : Memory) (caplen : ℕ) (header next : Chunk)
    → header.ptr ≡ none
    → header_walk m caplen header ≡ more next
    → (next.ptr ≡ some 0) × (next.protocol ≡ ethernet) × ((next.truncated ≡ true) ⊎ (14 ≤ caplen))
unfolding header_walk
first_header m caplen header next h s = ground (arith, h)

pub header_walk_ptr :
    (m : Memory) (caplen : ℕ) (header : Chunk) (ptr : ℕ)
    → header.ptr ≡ some ptr
    → header_walk m caplen header ≡ next_payload m caplen header ptr
unfolding header_walk
header_walk_ptr m caplen header ptr h = ground (arith, h)

pub header_walk-Entered :
    (m : Memory) (caplen : ℕ) (header : Chunk) (ptr : ℕ) (next : Chunk)
    → header.ptr ≡ some ptr
    → header_walk m caplen header ≡ more next
    → (payload : Payload) × (callback header.protocol m caplen ptr header.plen ≡ gives payload)
      × Entered m caplen payload next
header_walk-Entered m caplen header ptr next h s =
    let (payload, e, s') =
      next_payload-more m caplen header ptr (callback header.protocol m caplen ptr header.plen) next
        refl (sym (header_walk_ptr m caplen header ptr h) ∙ s) in
    (payload, e, enter-Entered m caplen header payload payload.out next refl s')

header_walk-IsInside_at :
    (m : Memory) (caplen : ℕ) (header : Chunk) (at : Option ℕ) (next : Chunk)
    → header.ptr ≡ at
    → header_walk m caplen header ≡ more next
    → IsInside m caplen next
unfolding IsInside header_size size
header_walk-IsInside_at m caplen header none next h s =
    let (start, type, fits) = first_header m caplen header next h s in
    (0, 14, start, rw type refl, omega arith, fits)
header_walk-IsInside_at m caplen header (some ptr) next h s =
    (header_walk-Entered m caplen header ptr next h s).2.inside

-- Whatever the packet holds: when `header_walk` returns 1, its pointer is within the captured bytes,
-- and unless the header is marked as truncated, all the bytes that its protocol needs are captured.
pub header_walk-IsInside :
    (m : Memory) (caplen : ℕ) (header next : Chunk)
    → header_walk m caplen header ≡ more next
    → IsInside m caplen next
header_walk-IsInside m caplen header next s =
    header_walk-IsInside_at m caplen header header.ptr next refl s
