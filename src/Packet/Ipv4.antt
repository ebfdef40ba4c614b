-- ===== src/Packet/Ipv4.antt =====
-- `find_ipv4_header` finds the header behind any number of VLAN tags, and nothing else.
use libcap_utils.Prelude.{
  ℕ, zero, suc, ◌+◌, ◌*◌, ◌<◌, ◌≤◌, ◌≡◌, ◌≢◌, inl, inr, arith, ◌==◌, if◌then◌else◌, Memory, be16,
  Bool-cases, ==_iff, sym, ◌∙◌,
}
use libcap_utils.Packet.{
  found, absent, find_loop, find_ipv4_header, ethertype_ip, ethertype_vlan, ethhdr_size,
}

-- The type field behind `n` tags.
abbrev pub type_at : Memory → ℕ → ℕ
type_at m n = be16 m (12 + 4 * n)

-- The types before the one behind `n` tags are all VLAN.
abbrev pub Tagged : Memory → ℕ → Type 0
Tagged m n = (j : ℕ) → j < n → type_at m j ≡ ethertype_vlan

-- One round over a tag moves on by its four bytes.
find_loop_tag :
    (fuel n : ℕ) (m : Memory)
    → type_at m n ≡ ethertype_vlan
    → find_loop (suc fuel) m (ethhdr_size + 4 * n) (type_at m n)
      ≡ find_loop fuel m (ethhdr_size + 4 * (n + 1)) (type_at m (n + 1))
unfolding find_loop
find_loop_tag fuel n m h =
    let p : 12 + 4 * (n + 1) ≡ ethhdr_size + 4 * n + 2 = omega arith in
    let q : ethhdr_size + 4 * (n + 1) ≡ ethhdr_size + 4 * n + 4 = omega arith in
    rw (p, q) (ground arith)

find_loop_stops :
    (d fuel n : ℕ) (m : Memory)
    → d < fuel
    → ((j : ℕ) → n ≤ j → j < n + d → type_at m j ≡ ethertype_vlan)
    → type_at m (n + d) ≢ ethertype_vlan
    → find_loop fuel m (ethhdr_size + 4 * n) (type_at m n)
      ≡ (if type_at m (n + d) == ethertype_ip then found (ethhdr_size + 4 * (n + d)) else absent)
unfolding find_loop
find_loop_stops d zero n m h tags stop = absurd (omega arith)
find_loop_stops zero (suc fuel) n m h tags stop =
    let e : n + 0 ≡ n = omega arith in rw e (ground (arith, rw e at stop))
find_loop_stops (suc d) (suc fuel) n m h tags stop =
    let e : n + suc d ≡ n + 1 + d = omega arith in
    let tagged : type_at m n ≡ ethertype_vlan = tags n (omega arith) (omega arith) in
    rw e (
      find_loop_tag fuel n m tagged
      ∙ find_loop_stops d fuel (n + 1) m (omega arith) (λ j p q. tags j (omega arith) (omega arith))
          (rw e at stop))

find_loop_found :
    (fuel n : ℕ) (m : Memory) {off : ℕ}
    → find_loop fuel m (ethhdr_size + 4 * n) (type_at m n) ≡ found off
    → (k : ℕ) × (n ≤ k)
      × (off ≡ ethhdr_size + 4 * k)
      × (type_at m k ≡ ethertype_ip)
      × ((j : ℕ) → n ≤ j → j < k → type_at m j ≡ ethertype_vlan)
unfolding find_loop
find_loop_found zero n m h = cc
find_loop_found (suc fuel) n m {off} h = elim (Bool-cases (type_at m n == ethertype_vlan)) [
  | inr other ↦ (n, omega arith, ground arith, ground arith, λ j p q. absurd (omega arith))
  | inl tag ↦
      let tagged : type_at m n ≡ ethertype_vlan = (==_iff _ _).0 tag in
      let (k, below, at, ip, tags) =
        find_loop_found fuel (n + 1) m {off = off} (sym (find_loop_tag fuel n m tagged) ∙ h) in
      (
        k,
        omega arith,
        at,
        ip,
        λ j p q. elim (Bool-cases (j == n)) [
          | inl e ↦ rw ((==_iff _ _).0 e) tagged
          | inr ne ↦ tags j (ground arith) q
        ],
      )
]

-- With fuel for the `n` VLAN tags in front, the search ends at the first type that is not VLAN: at
-- the header behind it if that type is IPv4, and without a header if it is any other.
pub find_ipv4_header_lem :
    (fuel n : ℕ) (m : Memory)
    → n ≤ fuel
    → Tagged m n
    → type_at m n ≢ ethertype_vlan
    → find_ipv4_header fuel m
      ≡ (if type_at m n == ethertype_ip then found (ethhdr_size + 4 * n) else absent)
unfolding find_ipv4_header
find_ipv4_header_lem fuel n m h tags stop =
    let e : 0 + n ≡ n = omega arith in
    rw e at
      (find_loop_stops n (suc fuel) 0 m (omega arith) (λ j p q. tags j (omega arith)) (rw e stop))

-- A header that the search finds stands behind VLAN tags only, and its type is IPv4.
pub find_ipv4_header_found :
    (fuel : ℕ) (m : Memory) {off : ℕ}
    → find_ipv4_header fuel m ≡ found off
    → (n : ℕ) × (off ≡ ethhdr_size + 4 * n) × (type_at m n ≡ ethertype_ip) × Tagged m n
unfolding find_ipv4_header
find_ipv4_header_found fuel m {off} h =
    let (k, below, at, ip, tags) = find_loop_found (suc fuel) 0 m {off = off} h in
    (k, at, ip, λ j p. tags j (omega arith) p)
