-- ===== src/Stream.antt =====
-- `struct stream` of src/stream.h, and stream.c.
pub mod Cells
pub mod Fill
pub mod Read
pub mod Peek
pub mod Sequence
pub mod Ring
use libcap_utils.Prelude.{
  ℕ, zero, suc, ◌+◌, ◌*◌, ◌^◌, ◌≤◌, ◌≡◌, Bool, true, false, Option, none, some, List, [], ◌∷◌, ◌++◌,
  length, Memory, byte_at, le32, ◌==◌, if◌then◌else◌, ltb, leb, ◌&&◌, swap32,
}
use libcap_utils.Time.{Picotime}
use libcap_utils.Filter.{CapHeader}

-- The fields of `struct stream` that reading uses, `buffer` as what its addresses hold, and those of
-- `struct stream_stat`.
pub record Stream : Type 0 where
  pub buffer : Memory
  pub buffer_size : ℕ
  pub exp_seqnr : ℕ
  pub write_pos : ℕ
  pub read_pos : ℕ
  pub flushed : Bool
  pub num_addresses : ℕ
  pub if_mtu : ℕ
  pub if_loopback : Bool
  pub stat_read : ℕ
  pub stat_recv : ℕ
  pub stat_matched : ℕ
  pub stat_buffer_size : ℕ
  pub stat_buffer_usage : ℕ

-- What the functions return: 0, -1 or an errno.
pub data Status : Type 0 where
  ok : Status
  eof : Status
  error : ℕ → Status

-- `errno` as a return value.
abbrev pub of_errno : ℕ → Status
of_errno zero = ok
of_errno (suc e) = error (suc e)

-- What a `fill_buffer_callback` answers: bytes, nothing more to read, or a failure with its errno.
pub data Answer : Type 0 where
  received : List ℕ → Answer
  closed : Answer
  failed : ℕ → Answer

-- The callback `fill_buffer` of a stream, which is asked for a number of bytes at most, and what
-- stream.h promises of it. `rest` are the bytes that it has yet to deliver.
pub record Source : Type 1 where
  pub World : Type 0
  pub receive : World → ℕ → Answer × World
  pub rest : World → List ℕ
  pub received-rest :
      (w : World) (max : ℕ) {bytes : List ℕ} {next : World}
      → receive w max ≡ (received bytes, next)
      → (1 ≤ length bytes) × (length bytes ≤ max) × (rest w ≡ bytes ++ rest next)
  pub closed-rest :
      (w : World) (max : ℕ) {next : World} → receive w max ≡ (closed, next) → rest next ≡ rest w
  pub failed-rest :
      (w : World) (max : ℕ) {errno : ℕ} {next : World}
      → receive w max ≡ (failed errno, next)
      → (1 ≤ errno) × (rest next ≡ rest w)

-- The client's filter, which `filter_match` changes on each packet. `none` is a search for headers
-- that does not end.
pub record Matcher : Type 1 where
  pub State : Type 0
  pub apply : State → CapHeader → Option (Bool × State)

-- `sizeof(struct cap_header)`
abbrev pub cap_header_size : ℕ
cap_header_size = 36

-- `cp->caplen` and the size of the packet at an address.
abbrev pub caplen_at : Memory → ℕ → ℕ
caplen_at m at = le32 m (at + 32)

abbrev pub packet_size_at : Memory → ℕ → ℕ
packet_size_at m at = cap_header_size + caplen_at m at

-- A C string in a field of a fixed size, as `strncmp` and the printing read it.
unfoldable pub string_at : Memory → ℕ → ℕ → List ℕ
string_at m at zero = []
string_at m at (suc n) =
    let rest = string_at m (at + 1) n in if byte_at m at == 0 then [] else byte_at m at ∷ rest

-- The `struct cap_header` at an address.
unfoldable pub cap_header_at : Memory → ℕ → CapHeader
unfolding string_at
cap_header_at m at = record {
  nic = string_at m at 8;
  mampid = string_at m (at + 8) 8;
  ts = record { tv_sec = le32 m (at + 16); tv_psec = le32 m (at + 20) + 2 ^ 32 * le32 m (at + 24) };
  len = le32 m (at + 28);
  caplen = caplen_at m at;
  payload = λ i. m (at + cap_header_size + i);
}

-- `stream_alloc`; the buffer and the struct around it are zeroed.
unfoldable pub stream_alloc : ℕ → ℕ → Stream
stream_alloc buffer_size mtu =
    let size = if buffer_size == 0 then 175000 else buffer_size in
    record {
      buffer = λ _. 0;
      buffer_size = size;
      exp_seqnr = 0;
      write_pos = 0;
      read_pos = 0;
      flushed = false;
      num_addresses = 0;
      if_mtu = mtu;
      if_loopback = false;
      stat_read = 0;
      stat_recv = 0;
      stat_matched = 0;
      stat_buffer_size = size;
      stat_buffer_usage = 0;
    }
