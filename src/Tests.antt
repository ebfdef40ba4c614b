-- ===== src/Tests.antt =====
-- Concrete inputs for the theorems: packets, timestamps and filters; the children have the others.
mod Times
mod Packets
mod Filters
mod Protocols
mod Streams
mod Frames
mod Lists
mod Markers
mod Rings
mod Arguments
mod Connections
mod Captures
use libcap_utils.Prelude.{ℕ, ◌*◌, ◌^◌, List, [], ◌∷◌, ◌++◌, replicate, Memory, memory_of}
use libcap_utils.Prelude.Int.{pos}
use libcap_utils.Time.{Picotime}
use libcap_utils.Filter.{Filter, CapHeader, Range, all_of}
use libcap_utils.Filter.Setters.{filter_init}

-- An IPv4 header of 20 bytes for a datagram of 44 bytes, from 10.0.0.1 to 10.0.0.2.
abbrev pub ip_header : ℕ → List ℕ
ip_header proto =
    0x45 ∷ 0 ∷ 0 ∷ 44 ∷ 0 ∷ 1 ∷ 0 ∷ 0 ∷ 64 ∷ proto ∷ 0 ∷ 0 ∷ 10 ∷ 0 ∷ 0 ∷ 1 ∷ 10 ∷ 0 ∷ 0 ∷ 2 ∷ []

-- A TCP header of 20 bytes, from port 1000 to port 80, with four bytes behind it.
abbrev pub tcp_segment : List ℕ
tcp_segment =
    3 ∷ 232 ∷ 0 ∷ 80 ∷ 0 ∷ 0 ∷ 0 ∷ 1 ∷ 0 ∷ 0 ∷ 0 ∷ 0 ∷ 0x50 ∷ 2 ∷ 16 ∷ 0 ∷ 0 ∷ 0 ∷ 0 ∷ 0 ∷ 1 ∷ 2 ∷ 3
    ∷ 4 ∷ []

abbrev pub vlan_tag : List ℕ
vlan_tag = 0x81 ∷ 0 ∷ 0 ∷ 5 ∷ []

abbrev pub ipv4_type : List ℕ
ipv4_type = 8 ∷ 0 ∷ []

-- A TCP packet without a tag, with one, and with two.
abbrev pub plain_bytes : List ℕ
plain_bytes = replicate 12 0 ++ ipv4_type ++ ip_header 6 ++ tcp_segment

abbrev pub plain : Memory
plain = memory_of plain_bytes

abbrev pub tagged : Memory
tagged = memory_of (replicate 12 0 ++ vlan_tag ++ ipv4_type ++ ip_header 6 ++ tcp_segment)

abbrev pub double_tagged : Memory
double_tagged =
    memory_of (replicate 12 0 ++ vlan_tag ++ vlan_tag ++ ipv4_type ++ ip_header 6 ++ tcp_segment)

abbrev pub noon : Picotime
noon = record { tv_sec = 43200; tv_psec = 10 ^ 11 }

abbrev pub later : Picotime
later = record { tv_sec = 43201; tv_psec = 9 * 10 ^ 11 }

abbrev pub head_of : Memory → CapHeader
head_of m = record { nic = []; mampid = []; ts = noon; len = 58; caplen = 58; payload = m }

-- A filter on frames 1 to 2 and from 4 on.
abbrev pub frame_filter : Filter
frame_filter = record filter_init {
  index = 2 ^ 15;
  frame_num =
      record { lower = pos 1; upper = pos 2 } ∷ record { lower = pos 4; upper = pos 0 } ∷ [];
}
