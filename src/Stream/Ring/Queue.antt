-- ===== src/Stream/Ring/Queue.antt =====
-- The ring of src/stream_buffer.c as a queue: the packets that are to be read, in their order, first
-- those of the frame at the read position, then those of the frames that are buffered behind it.
use libcap_utils.Prelude.{
  ℕ, zero, suc, ◌+◌, ◌-◌, ◌^◌, ◌≤◌, ◌<◌, ◌≡◌, ◌≢◌, refl, sym, Option, none, some, List, [], ◌∷◌,
  ◌++◌, append_assoc, All, Memory, u32, be32, ◌==◌, leb, if◌then◌else◌, arith,
}
use libcap_utils.Filter.{CapHeader}
use libcap_utils.Stream.{packet_size_at, cap_header_at}
use libcap_utils.Stream.Sequence.{sendhead_size}
use libcap_utils.Stream.Ring.{FrameBuffer, Place, next_slot, store}
use native.Mathlib.Decide.{dec_lt}
use native.Mathlib.Nat.{mod-eq_of_lt, mod_self}

-- The slot behind a slot, round the ring.
abbrev pub following : ℕ → ℕ → ℕ
following n pos = if pos + 1 == n then 0 else pos + 1

pub next_slot-following : (n pos : ℕ) → pos < n → n ≤ 2 ^ 32 → next_slot n pos ≡ following n pos
next_slot-following n pos h small = elim (dec_lt (pos + 1) n) [
  | yes inside ↦
      let same : u32 (pos + 1) ≡ pos + 1 = omega arith in
      rw (same, mod-eq_of_lt inside) (ground arith)
  | no round ↦
      let last : pos + 1 ≡ n = omega arith in
      elim (dec_lt n (2 ^ 32)) [
        | yes less ↦
            let same : u32 (pos + 1) ≡ n = omega arith in rw (same, mod_self n) (ground arith)
        | no most ↦
            let wrapped : u32 (pos + 1) ≡ 0 = omega arith in
            rw (wrapped, mod-eq_of_lt {n = 0} {m = n} (omega arith)) (ground arith)
      ]
]

-- How many slots lie from one position up to another.
abbrev pub gap : ℕ → ℕ → ℕ → ℕ
gap n from to = if leb from to then to - from else n + to - from

-- The frames in `k` slots, from a position on.
unfoldable pub slots : (ℕ → Memory) → ℕ → ℕ → ℕ → List Memory
slots frame n pos zero = []
slots frame n pos (suc k) = frame pos ∷ slots frame n (following n pos) k

-- A write to a slot behind them leaves them.
pub slots-store :
    (frame : ℕ → Memory) (n w k pos : ℕ) (m : Memory)
    → pos < n
    → w < n
    → k ≤ gap n pos w
    → slots (store frame w m) n pos k ≡ slots frame n pos k
unfolding slots
slots-store frame n w zero pos m p q h = refl
slots-store frame n w (suc k) pos m p q h =
    ground (arith, slots-store frame n w k (following n pos) m)

-- A write to the slot just behind them adds a frame to them.
pub slots-store_next :
    (frame : ℕ → Memory) (n w k pos : ℕ) (m : Memory)
    → pos < n
    → w < n
    → k ≡ gap n pos w
    → slots (store frame w m) n pos (suc k) ≡ slots frame n pos k ++ m ∷ []
unfolding slots
slots-store_next frame n w zero pos m p q h = ground arith
slots-store_next frame n w (suc k) pos m p q h =
    ground (arith, slots-store_next frame n w k (following n pos) m)

-- Up to another position, the frames begin with the one at the position.
pub slots-gap :
    (frame : ℕ → Memory) (n w pos : ℕ)
    → pos < n
    → w < n
    → pos ≢ w
    → slots frame n pos (gap n pos w)
      ≡ frame pos ∷ slots frame n (following n pos) (gap n (following n pos) w)
unfolding slots
slots-gap frame n w pos p q ne =
    let e : gap n pos w ≡ suc (gap n (following n pos) w) = ground (arith, ne) in rw e refl

-- The headers of `k` packets, one behind the other.
unfoldable pub headers : Memory → ℕ → ℕ → List CapHeader
headers m at zero = []
headers m at (suc k) = cap_header_at m at ∷ headers m (at + packet_size_at m at) k

pub headers-pos :
    (m : Memory) (at k : ℕ)
    → k ≢ 0
    → headers m at k ≡ cap_header_at m at ∷ headers m (at + packet_size_at m at) (k - 1)
unfolding headers
headers-pos m at zero ne = absurd (ne refl)
headers-pos m at (suc k) ne = let e : suc k - 1 ≡ k = omega arith in rw e refl

-- Those of a frame, and of frames; the offset is that of `struct sendhead`.
unfoldable pub frame_headers : ℕ → Memory → List CapHeader
unfolding headers
frame_headers offset m = headers m (offset + sendhead_size) (be32 m (offset + 4))

unfoldable pub all_headers : ℕ → List Memory → List CapHeader
unfolding frame_headers
all_headers offset [] = []
all_headers offset (m ∷ ms) = frame_headers offset m ++ all_headers offset ms

pub all_headers-append :
    (offset : ℕ) (ms ns : List Memory)
    → all_headers offset (ms ++ ns) ≡ all_headers offset ms ++ all_headers offset ns
unfolding all_headers
all_headers-append offset [] ns = refl
all_headers-append offset (m ∷ ms) ns =
    rw (all_headers-append offset ms ns)
      (sym (append_assoc (frame_headers offset m) (all_headers offset ms) (all_headers offset ns)))

-- The frames that are buffered behind the one at the read position.
unfoldable pub queued : FrameBuffer → Option Place → List Memory
unfolding slots
queued fb none = []
queued fb (some place) =
    let start = following fb.num_frames fb.read_pos in
    slots fb.frame fb.num_frames start (gap fb.num_frames start fb.write_pos)

-- The packets that are left of the frame at the read position.
unfoldable pub current : FrameBuffer → Option Place → List CapHeader
unfolding headers
current fb none = []
current fb (some place) = headers (fb.frame place.slot) place.offset fb.num_packets

-- The packets that are to be read, with the frames that are yet to come.
unfoldable pub pending : FrameBuffer → List Memory → List CapHeader
unfolding queued current all_headers
pending fb coming =
    current fb fb.read_ptr
    ++ (all_headers fb.header_offset (queued fb fb.read_ptr) ++ all_headers fb.header_offset coming)

-- A frame says that it holds a packet.
abbrev pub HasPacket : ℕ → Memory → Type 0
HasPacket offset m = be32 m (offset + 4) ≢ 0

-- Where the read pointer is: nowhere exactly if nothing is buffered, and else in the slot at the read
-- position, with packets left there and in every frame behind it.
abbrev pub Reading : FrameBuffer → Option Place → Type 0
Reading fb none = fb.read_pos ≡ fb.write_pos
Reading fb (some place) =
    (place.slot ≡ fb.read_pos)
    × (fb.num_packets ≢ 0)
    × All (HasPacket fb.header_offset) (queued fb (some place))

pub record IsRing (fb : FrameBuffer) : Type 0 where
  pub small : fb.num_frames ≤ 2 ^ 32
  pub read_in : fb.read_pos < fb.num_frames
  pub write_in : fb.write_pos < fb.num_frames
  pub reading : Reading fb fb.read_ptr
