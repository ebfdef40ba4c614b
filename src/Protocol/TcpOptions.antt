-- ===== src/Protocol/TcpOptions.antt =====
-- `tcp_options` of src/protocols/tcp.c: the walk over the options of a TCP header for printing, with
-- what is printed as data.
pub mod Bounds
use libcap_utils.Prelude.{
  ℕ, zero, suc, ◌+◌, ◌*◌, ◌/◌, Memory, byte_at, be16, List, [], ◌∷◌, Bool, true, false, ◌==◌, ◌&&◌,
  ◌||◌, not, ltb, leb, if◌then◌else◌,
}

-- `tcp_option_size`
unfoldable pub tcp_option_size : Memory → ℕ → ℕ
tcp_option_size m at = if leb (byte_at m at) 1 then 1 else byte_at m (at + 1)

-- What is printed for an option.
pub data Shown : Type 0 where
  nop sack tss : Shown
  mss : ℕ → Shown
  ws : ℕ → Shown
  other : ℕ → Shown

-- An option with its address.
pub record ShownOption : Type 0 where
  pub at : ℕ
  pub shown : Shown

-- How the walk ends: at the end of the options, at the end of the captured bytes, at an option
-- without a size, or not within the fuel.
pub data End : Type 0 where
  complete truncated invalid endless : End

-- The switch over the kind, but for EOL, which the loop's condition excludes.
unfoldable pub show : Memory → ℕ → Shown
show m at =
    let kind = byte_at m at in
    if kind == 1
    then nop
    else if kind == 2
    then mss (be16 m (at + 2))
    else if kind == 3
    then ws (byte_at m (at + 2))
    else if kind == 4 || kind == 5
    then sack
    else if kind == 8
    then tss
    else other kind

-- The test that there is enough data left in the packet.
unfoldable pub is_cut : Memory → ℕ → ℕ → Bool
is_cut m caplen at =
    ltb caplen (at + 1)
    || ltb caplen (at + (if ltb 1 (byte_at m at) then 2 else 1))
    || ltb caplen (at + tcp_option_size m at)

abbrev pub before : ShownOption → List ShownOption × End → List ShownOption × End
before o (rest, end) = (o ∷ rest, end)

unfoldable pub options_loop : ℕ → Memory → ℕ → ℕ → ℕ → ℕ → List ShownOption × End
unfolding tcp_option_size show is_cut
options_loop zero m caplen length at optlen = ([], endless)
options_loop (suc fuel) m caplen length at optlen =
    let size = tcp_option_size m at in
    let rest = options_loop fuel m caplen length (at + size) (optlen + size) in
    if byte_at m at == 0 || not (ltb optlen length)
    then ([], complete)
    else if is_cut m caplen at
    then ([], truncated)
    else if size == 0
    then ([], invalid)
    else before (record { at = at; shown = show m at }) rest

-- Each option takes a byte of the captured packet at least.
unfoldable pub tcp_options : Memory → ℕ → ℕ → List ShownOption × End
unfolding options_loop
tcp_options m caplen tcp =
    let doff = byte_at m (tcp + 12) / 16 in
    if leb doff 5
    then ([], complete)
    else options_loop (suc caplen) m caplen (4 * doff) (tcp + 20) 20
