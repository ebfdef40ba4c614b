-- ===== src/Protocol/TcpOptions/Bounds.antt =====
-- That the walk over TCP options of src/protocols/tcp.c ends, and stays within the captured bytes.
use libcap_utils.Prelude.{
  ℕ, zero, suc, ◌+◌, ◌*◌, ◌-◌, ◌/◌, ◌≤◌, ◌<◌, ◌≡◌, ◌≢◌, Memory, byte_at, List, [], ◌∷◌, All, false,
  ◌==◌, ◌||◌, not, ltb, leb, if_cases, arith,
}
use libcap_utils.Protocol.TcpOptions.{
  ShownOption, End, endless, tcp_option_size, show, is_cut, before, options_loop, tcp_options,
}

-- An option with a size, which lies between two addresses.
unfoldable pub Between : Memory → ℕ → ℕ → ShownOption → Type 0
Between m from to o =
    (1 ≤ tcp_option_size m o.at) × (from ≤ o.at) × (o.at + tcp_option_size m o.at ≤ to)

-- A walk that ends by a test of the code and has seen such options alone.
unfoldable pub IsBounded : Memory → ℕ → ℕ → List ShownOption × End → Type 0
IsBounded m from to (options, end) = (end ≢ endless) × All (Between m from to) options

All-Between_mono :
    (m : Memory) (from from' to : ℕ) (options : List ShownOption)
    → from' ≤ from
    → All (Between m from to) options
    → All (Between m from' to) options
unfolding Between
All-Between_mono m from from' to [] h a = a
All-Between_mono m from from' to (o ∷ options) h ((pos, start, end), a) =
    ((pos, omega (arith, h, start), end), All-Between_mono m from from' to options h a)

before-IsBounded :
    (m : Memory) (from from' to : ℕ) (o : ShownOption) (r : List ShownOption × End)
    → from' ≤ from
    → Between m from' to o
    → IsBounded m from to r
    → IsBounded m from' to (before o r)
unfolding IsBounded
before-IsBounded m from from' to o (options, end) h b (ends, a) =
    (ends, (b, All-Between_mono m from from' to options h a))

uncut :
    (m : Memory) (caplen at : ℕ) → is_cut m caplen at ≡ false → at + tcp_option_size m at ≤ caplen
unfolding is_cut
uncut m caplen at h = ground (arith, h)

options_loop-IsBounded :
    (fuel : ℕ) (m : Memory) (caplen length at optlen : ℕ)
    → caplen - at < fuel
    → IsBounded m at caplen (options_loop fuel m caplen length at optlen)
unfolding options_loop IsBounded Between
options_loop-IsBounded zero m caplen length at optlen h = absurd (omega (arith, h))
options_loop-IsBounded (suc fuel) m caplen length at optlen h =
    let size = tcp_option_size m at in
    let P = IsBounded m at caplen in
    if_cases P (byte_at m at == 0 || not (ltb optlen length))
      (λ _. ((λ e. absurd (ground arith)), tt))
      (λ _.
        if_cases P (is_cut m caplen at) (λ _. ((λ e. absurd (ground arith)), tt))
          (λ cut.
            if_cases P (size == 0) (λ _. ((λ e. absurd (ground arith)), tt))
              (λ some_size.
                let fits : (1 ≤ size) × (at + size ≤ caplen) =
                  (ground (arith, some_size), uncut m caplen at cut) in
                before-IsBounded m (at + size) at caplen (record { at = at; shown = show m at })
                  (options_loop fuel m caplen length (at + size) (optlen + size)) (omega arith)
                  (fits.0, omega arith, fits.1)
                  (options_loop-IsBounded fuel m caplen length (at + size) (optlen + size)
                    (omega (arith, h, fits.0, fits.1))))))

-- The walk over the options of a TCP header ends on every packet, whatever its bytes, by one of the
-- tests of the code. Every option that it shows has a size, begins behind the fixed header and ends
-- within the captured bytes.
pub tcp_options-IsBounded :
    (m : Memory) (caplen tcp : ℕ) → IsBounded m (tcp + 20) caplen (tcp_options m caplen tcp)
unfolding tcp_options IsBounded
tcp_options-IsBounded m caplen tcp =
    let doff = byte_at m (tcp + 12) / 16 in
    if_cases (IsBounded m (tcp + 20) caplen) (leb doff 5) (λ _. ((λ e. absurd (ground arith)), tt))
      (λ _. options_loop-IsBounded (suc caplen) m caplen (4 * doff) (tcp + 20) 20 (omega arith))
