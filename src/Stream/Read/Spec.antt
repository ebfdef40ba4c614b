-- ===== src/Stream/Read/Spec.antt =====
-- What `stream_read` of src/stream.c promises: the next packet of the byte sequence that the filter
-- accepts, whatever the pieces are in which the bytes arrive.
use libcap_utils.Prelude.{ℕ, ◌≡◌, true, false, Option, some, List, ◌++◌, Memory}
use libcap_utils.Stream.{Source, Matcher, packet_size_at, cap_header_at}
use libcap_utils.Stream.Cells.{bytes_at}
use libcap_utils.Stream.Read.{decide}

-- The bytes of the packet whose header stands at an address.
abbrev pub packet_at : Memory → ℕ → List ℕ
packet_at m at = bytes_at m at (packet_size_at m at)

-- From a sequence of bytes, a filter selects a packet, and leaves the bytes behind it. The filter
-- sees the packets in order, each once.
pub data Selects (source : Source) (matcher : Matcher)
    : Option matcher.State → List ℕ → List ℕ → Option matcher.State → List ℕ → Type 0 where
  hit :
      (m : Memory) (at : ℕ) {f g : Option matcher.State} {bytes rest : List ℕ}
      → bytes ≡ packet_at m at ++ rest
      → decide matcher f (cap_header_at m at) ≡ some (true, g)
      → Selects source matcher f bytes (packet_at m at) g rest
  miss :
      (m : Memory) (at : ℕ) {f g h : Option matcher.State} {bytes next packet rest : List ℕ}
      → bytes ≡ packet_at m at ++ next
      → decide matcher f (cap_header_at m at) ≡ some (false, g)
      → Selects source matcher g next packet h rest
      → Selects source matcher f bytes packet h rest

-- The packets that the filter has been shown and has rejected.
pub data Passes (source : Source) (matcher : Matcher)
    : Option matcher.State → List ℕ → Option matcher.State → List ℕ → Type 0 where
  stays : {f : Option matcher.State} {bytes : List ℕ} → Passes source matcher f bytes f bytes
  passes :
      (m : Memory) (at : ℕ) {f g h : Option matcher.State} {bytes next rest : List ℕ}
      → bytes ≡ packet_at m at ++ next
      → decide matcher f (cap_header_at m at) ≡ some (false, g)
      → Passes source matcher g next h rest
      → Passes source matcher f bytes h rest
