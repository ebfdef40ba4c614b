-- ===== src/Stream/Cells.antt =====
-- The buffer's bytes as a list, under the writes of stream.c: `memmove` to its beginning, and the
-- bytes that a callback stores.
use libcap_utils.Prelude.{
  ℕ, zero, suc, ◌+◌, ◌-◌, ◌≤◌, ◌<◌, ◌≡◌, refl, ap, ap₂, List, [], ◌∷◌, ◌++◌, length, Memory, ltb,
  leb, if◌then◌else◌, ◌&&◌, get_or, arith,
}

-- The bytes in a part of the memory.
unfoldable pub bytes_at : Memory → ℕ → ℕ → List ℕ
bytes_at m at zero = []
bytes_at m at (suc n) = m at ∷ bytes_at m (at + 1) n

-- `memmove(buffer, buffer + from, n)`
unfoldable pub moved : Memory → ℕ → ℕ → Memory
moved m from n i = if ltb i n then m (i + from) else m i

-- The bytes of a list, stored at an address and behind it.
unfoldable pub stored : Memory → ℕ → List ℕ → Memory
stored m at bytes i = if leb at i && ltb i (at + length bytes) then get_or bytes (i - at) 0 else m i

pub bytes_at-append :
    (m : Memory) (at n k : ℕ) → bytes_at m at (n + k) ≡ bytes_at m at n ++ bytes_at m (at + n) k
unfolding bytes_at
bytes_at-append m at zero k = ground arith
bytes_at-append m at (suc n) k =
    let e : suc n + k ≡ suc (n + k) = omega arith in
    let d : at + suc n ≡ at + 1 + n = omega arith in
    rw (e, d) (ap (λ r. m at ∷ r) (bytes_at-append m (at + 1) n k))

pub length-bytes_at : (m : Memory) (at n : ℕ) → length (bytes_at m at n) ≡ n
unfolding bytes_at
length-bytes_at m at zero = refl
length-bytes_at m at (suc n) = ap suc (length-bytes_at m (at + 1) n)

-- Two memories that agree on a part hold the same bytes there, also at another place.
pub bytes_at_cong :
    (m k : Memory) (at to n : ℕ)
    → ((i : ℕ) → i < n → m (at + i) ≡ k (to + i))
    → bytes_at m at n ≡ bytes_at k to n
unfolding bytes_at
bytes_at_cong m k at to zero h = refl
bytes_at_cong m k at to (suc n) h =
    ap₂ (λ b r. b ∷ r) (ground (arith, h 0 (omega arith)))
      (bytes_at_cong m k (at + 1) (to + 1) n (λ i b. ground (arith, h (suc i) (omega arith))))

pub bytes_at-moved : (m : Memory) (from n : ℕ) → bytes_at (moved m from n) 0 n ≡ bytes_at m from n
unfolding moved
bytes_at-moved m from n = bytes_at_cong (moved m from n) m 0 from n (λ i b. ground arith)

pub bytes_at-stored_before :
    (m : Memory) (at n to : ℕ) (bytes : List ℕ)
    → at + n ≤ to
    → bytes_at (stored m to bytes) at n ≡ bytes_at m at n
unfolding stored
bytes_at-stored_before m at n to bytes h =
    bytes_at_cong (stored m to bytes) m at at n (λ i b. ground arith)

bytes_at-get_or :
    (m : Memory) (at : ℕ) (bytes : List ℕ)
    → ((i : ℕ) → i < length bytes → m (at + i) ≡ get_or bytes i 0)
    → bytes_at m at (length bytes) ≡ bytes
unfolding bytes_at
bytes_at-get_or m at [] h = refl
bytes_at-get_or m at (b ∷ bytes) h =
    ap₂ (λ b r. b ∷ r) (ground (arith, h 0 (omega arith)))
      (bytes_at-get_or m (at + 1) bytes (λ i l. ground (arith, h (suc i) (omega arith))))

pub bytes_at-stored :
    (m : Memory) (at : ℕ) (bytes : List ℕ) → bytes_at (stored m at bytes) at (length bytes) ≡ bytes
unfolding stored
bytes_at-stored m at bytes = bytes_at-get_or (stored m at bytes) at bytes (λ i b. ground arith)
