-- ===== src/Protocol/Ipv6/Chain.antt =====
-- The extension headers that `ipv6_total_header_size` of src/protocols/ipv6.c walks over, as a chain.
use libcap_utils.Prelude.{ℕ, ◌+◌, ◌*◌, ◌≡◌, ◌≢◌, ◌≤◌, ◌⊎◌, List, [], ◌∷◌, Memory, byte_at}

-- The headers from an address on, the first one of the type `nxt`. Those of type 0 are extension
-- headers, whose sizes are listed: the first byte is the type of the next header, and the second one
-- counts 2048 bytes each, besides eight bytes. The chain ends at a header of another type, `proto`.
abbrev pub Chain : Memory → ℕ → ℕ → List ℕ → ℕ → Type 0
Chain m nxt at [] proto = (nxt ≡ proto) × (nxt ≢ 0)
Chain m nxt at (size ∷ sizes) proto =
    (nxt ≡ 0)
    × (size ≡ 8 + 2048 * byte_at m (at + 1))
    × Chain m (byte_at m at) (at + size) sizes proto

abbrev pub total_size : List ℕ → ℕ
total_size [] = 0
total_size (size ∷ sizes) = size + total_size sizes

-- What the walk has to tell: the sizes of the extension headers in front of a payload.
unfoldable pub IsPayload : Memory → ℕ → ℕ → ℕ → ℕ → ℕ → Type 0
IsPayload m caplen ip total next proto =
    (sizes : List ℕ) × Chain m (byte_at m (ip + 6)) (ip + 40) sizes proto
    × (total ≡ 40 + total_size sizes)
    × (next ≡ ip + total)
    × (40 ≤ caplen)
    × ((sizes ≡ []) ⊎ (next ≤ caplen))
