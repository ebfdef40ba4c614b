-- ===== src/Protocol/Walk/Termination.antt =====
-- The client's loop over `header_walk` of src/packet.c: it ends, and what it sees.
use libcap_utils.Prelude.{
  ℕ, zero, suc, ◌+◌, ◌*◌, ◌-◌, true, Option, none, some, Memory, ◌≤◌, ◌<◌, ◌≡◌, arith, refl, All,
}
use libcap_utils.Protocol.{Protocol, Payload}
use libcap_utils.Protocol.Walk.{
  Chunk, Result, more, stop, abort, goes_on, header_init, header_walk, Walk, walked, aborted, lost,
  walk, seen,
}
use libcap_utils.Protocol.Walk.Advance.{rank, rank≤1, Moves, callback-Moves}
use libcap_utils.Protocol.Walk.Safety.{IsInside, header_walk-Entered, header_walk-IsInside}

-- How far a walk can still go.
measure : ℕ → Option ℕ → Protocol → ℕ
measure caplen none protocol = 2 * caplen + 2
measure caplen (some ptr) protocol = 2 * (caplen - ptr) + rank protocol

measure-inside :
    (caplen ptr : ℕ) (protocol : Protocol)
    → ptr ≤ caplen
    → suc (measure caplen (some ptr) protocol) ≤ 2 * caplen + 2
unfolding measure
measure-inside caplen ptr protocol b = ground (arith, rank≤1 protocol)

measure-Moves :
    (caplen ptr p rank_before : ℕ) (payload : Payload)
    → Moves rank_before ptr payload
    → payload.out ≡ some p
    → goes_on payload.type ≡ true
    → p ≤ caplen
    → suc (measure caplen (some p) payload.type) ≤ 2 * (caplen - ptr) + rank_before
unfolding measure Moves
measure-Moves caplen ptr p n payload moves out going b =
    let further = moves.1 p out going in omega arith

decrease_from :
    (m : Memory) (caplen : ℕ) (header : Chunk) (at : Option ℕ) (next : Chunk)
    → header.ptr ≡ at
    → header_walk m caplen header ≡ more next
    → suc (measure caplen next.ptr next.protocol) ≤ measure caplen at header.protocol
unfolding IsInside measure
decrease_from m caplen header none next h s =
    let (ptr, _, e, _, b, _) = header_walk-IsInside m caplen header next s in
    rw e (measure-inside caplen ptr next.protocol b)
decrease_from m caplen header (some ptr) next h s =
    let (payload, e, entered) = header_walk-Entered m caplen header ptr next h s in
    let moves = callback-Moves header.protocol m caplen ptr header.plen payload e in
    rw (entered.ptr, entered.type)
      (measure-Moves caplen ptr entered.at (rank header.protocol) payload moves entered.out
        entered.going entered.bound)

decrease :
    (m : Memory) (caplen : ℕ) (header next : Chunk)
    → header_walk m caplen header ≡ more next
    → suc (measure caplen next.ptr next.protocol) ≤ measure caplen header.ptr header.protocol
decrease m caplen header next s = decrease_from m caplen header header.ptr next refl s

-- A walk that ends as it should: aborted in a decoder, or with a list of headers that are all
-- within the captured bytes.
unfoldable pub IsSafeWalk : Memory → ℕ → Walk → Type 0
IsSafeWalk m caplen lost = ⊥
IsSafeWalk m caplen aborted = Unit
IsSafeWalk m caplen (walked headers) = All (IsInside m caplen) headers

seen-IsSafeWalk :
    (m : Memory) (caplen : ℕ) (header : Chunk) (rest : Walk)
    → IsInside m caplen header
    → IsSafeWalk m caplen rest
    → IsSafeWalk m caplen (seen header rest)
unfolding IsSafeWalk
seen-IsSafeWalk m caplen header (walked rest) i s = (i, s)
seen-IsSafeWalk m caplen header aborted i s = s
seen-IsSafeWalk m caplen header lost i s = s

walk_step :
    (m : Memory) (caplen fuel : ℕ) (header : Chunk) (result : Result)
    → header_walk m caplen header ≡ result
    → ((next : Chunk)
        → header_walk m caplen header ≡ more next
        → IsSafeWalk m caplen (walk m caplen fuel next))
    → IsSafeWalk m caplen (walk m caplen (suc fuel) header)
unfolding walk IsSafeWalk
walk_step m caplen fuel header (more next) h rest =
    rw (walk, h)
      (seen-IsSafeWalk m caplen next (walk m caplen fuel next)
        (header_walk-IsInside m caplen header next h) (rest next h))
walk_step m caplen fuel header (stop next) h rest = rw (walk, h) tt
walk_step m caplen fuel header abort h rest = rw (walk, h) tt

walk-IsSafeWalk :
    (m : Memory) (caplen fuel : ℕ) (header : Chunk)
    → measure caplen header.ptr header.protocol < fuel
    → IsSafeWalk m caplen (walk m caplen fuel header)
walk-IsSafeWalk m caplen zero header b = absurd (omega arith)
walk-IsSafeWalk m caplen (suc fuel) header b =
    walk_step m caplen fuel header (header_walk m caplen header) refl (λ next h.
      walk-IsSafeWalk m caplen fuel next
        (let less = decrease m caplen header next h in omega arith))

-- The client's loop ends on every packet, after at most `2 * caplen + 3` calls of `header_walk`,
-- whatever the bytes are. If no decoder aborts, then each header that it has seen is within the
-- captured bytes, and unless it is marked as truncated, so are all the bytes that its protocol needs.
pub header_walk_ends :
    (m : Memory) (caplen : ℕ) → IsSafeWalk m caplen (walk m caplen (2 * caplen + 3) header_init)
unfolding header_init measure
header_walk_ends m caplen = walk-IsSafeWalk m caplen (2 * caplen + 3) header_init (omega arith)
