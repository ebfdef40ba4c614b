-- ===== src/Prelude/Words.antt =====
-- Machine words as natural numbers below a power of two, the byte orders, and the memory that a
-- packet is read from. The host is little-endian, as the bit-field layouts in the sources assume
-- under __LITTLE_ENDIAN.
use Prim.Native.Nat.{ℕ, ◌+◌, ◌-◌, ◌*◌, ◌/◌, ◌%◌, ◌^◌, ◌<◌}
use mathlib.Core.Path.{◌≡◌}
use mathlib.Core.List.{List}
use native.Mathlib.Omega.{arith}
use libcap_utils.Prelude.Lists.{get_or}

abbrev pub u8 : ℕ → ℕ
u8 n = n % 2 ^ 8

abbrev pub u16 : ℕ → ℕ
u16 n = n % 2 ^ 16

abbrev pub u32 : ℕ → ℕ
u32 n = n % 2 ^ 32

abbrev pub u64 : ℕ → ℕ
u64 n = n % 2 ^ 64

-- Subtraction of words wraps.
abbrev pub sub32 : ℕ → ℕ → ℕ
sub32 a b = (a + 2 ^ 32 - b) % 2 ^ 32

abbrev pub sub64 : ℕ → ℕ → ℕ
sub64 a b = (a + 2 ^ 64 - b) % 2 ^ 64

-- The byte `i` of a word, the least significant first.
abbrev pub octet : ℕ → ℕ → ℕ
octet i w = w / 256 ^ i % 256

-- `htons` and `ntohs`, `htonl` and `ntohl`: the bytes of the word in reverse.
unfoldable pub swap16 : ℕ → ℕ
swap16 w = octet 0 w * 256 + octet 1 w

unfoldable pub swap32 : ℕ → ℕ
swap32 w = octet 0 w * 2 ^ 24 + octet 1 w * 2 ^ 16 + octet 2 w * 2 ^ 8 + octet 3 w

pub swap16-swap16 : (w : ℕ) → w < 2 ^ 16 → swap16 (swap16 w) ≡ w
unfolding swap16
swap16-swap16 w h = omega arith

pub swap32-swap32 : (w : ℕ) → w < 2 ^ 32 → swap32 (swap32 w) ≡ w
unfolding swap32
swap32-swap32 w h = omega arith

pub swap32-lt : (w : ℕ) → swap32 w < 2 ^ 32
unfolding swap32
swap32-lt w = omega arith

-- The memory at and behind a pointer, a byte to an address. Reading has no bound of its own: what
-- the code reads past the captured bytes is what lies there.
abbrev pub Memory : Type 0
Memory = ℕ → ℕ

-- A read is cut to a byte, so that every function into ℕ is a memory.
abbrev pub byte_at : Memory → ℕ → ℕ
byte_at m i = m i % 256

-- `ntohs` and `ntohl` of the word that starts at an address: its bytes, the first most significant.
unfoldable pub be16 : Memory → ℕ → ℕ
be16 m i = byte_at m i * 256 + byte_at m (i + 1)

unfoldable pub be32 : Memory → ℕ → ℕ
be32 m i = be16 m i * 2 ^ 16 + be16 m (i + 2)

-- A word as the host reads it, without a change of byte order.
unfoldable pub le32 : Memory → ℕ → ℕ
le32 m i =
    byte_at m i
    + byte_at m (i + 1) * 2 ^ 8
    + byte_at m (i + 2) * 2 ^ 16
    + byte_at m (i + 3) * 2 ^ 24

pub be16-lt : (m : Memory) (i : ℕ) → be16 m i < 2 ^ 16
unfolding be16
be16-lt m i = omega arith

pub be32-lt : (m : Memory) (i : ℕ) → be32 m i < 2 ^ 32
unfolding be32
be32-lt m i = omega (arith, be16-lt m i, be16-lt m (i + 2))

-- The memory of a concrete packet: its bytes, with zeroes behind them.
abbrev pub memory_of : List ℕ → Memory
memory_of bytes i = get_or bytes i 0
