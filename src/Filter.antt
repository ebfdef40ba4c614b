-- ===== src/Filter.antt =====
-- The packet filter of src/filter.c and caputils/filter.h: its state, and what it is matched with.
pub mod Offset
pub mod Criteria
pub mod Core
pub mod Match
pub mod Frames
pub mod Gaps
pub mod Ranges
pub mod Arguments
pub mod Values
pub mod CommandLine
pub mod Texts
pub mod Wire
pub mod Setters
pub mod Address
use libcap_utils.Prelude.{ℕ, ◌+◌, ◌^◌, Bool, Option, List, not, bit_and, ◌==◌}
use libcap_utils.Prelude.Int.{ℤ}
use libcap_utils.Time.{Picotime}

-- `enum FilterMode`
pub data Mode : Type 0 where
  unknown all_of any_of : Mode

-- `struct frame_num_node` without its link. The bounds are ints, and one that is not set is
-- -1.
pub record Range : Type 0 where
  pub lower : ℤ
  pub upper : ℤ

-- `struct filter`. An Ethernet address is the list of its six octets, an IPv4 address the word that
-- `s_addr` holds, a char array the C string in it. `frame_counter` is an int that starts at 1 and
-- is only counted up; `filter_match` has no defined result where that overflows. A compiled BPF program is a
-- list of words that only libpcap reads. `dest` is the bytes of the stream address, and `bpf_expr`
-- is kept for printing only and left out.
pub record Filter : Type 0 where
  pub filter_id : ℕ
  pub version : ℕ
  pub mode : Mode
  pub index : ℕ
  pub starttime : Picotime
  pub endtime : Picotime
  pub mampid : List ℕ
  pub iface : List ℕ
  pub vlan_tci : ℕ
  pub vlan_tci_mask : ℕ
  pub eth_type : ℕ
  pub eth_type_mask : ℕ
  pub eth_src : List ℕ
  pub eth_src_mask : List ℕ
  pub eth_dst : List ℕ
  pub eth_dst_mask : List ℕ
  pub ip_proto : ℕ
  pub ip_src : ℕ
  pub ip_src_mask : ℕ
  pub ip_dst : ℕ
  pub ip_dst_mask : ℕ
  pub src_port : ℕ
  pub src_port_mask : ℕ
  pub dst_port : ℕ
  pub dst_port_mask : ℕ
  pub port : ℕ
  pub port_mask : ℕ
  pub frame_max_dt : Picotime
  pub frame_num : List Range
  pub bpf_insn : Option (List ℕ)
  pub first : Bool
  pub frame_counter : ℕ
  pub frame_last_ts : Picotime
  pub consumer : ℕ
  pub caplen : ℕ
  pub dest : List ℕ

-- `struct cap_header`: `nic` and `mampid` are the C strings that start in the header, `payload` the
-- memory behind it.
pub record CapHeader : Type 0 where
  pub nic : List ℕ
  pub mampid : List ℕ
  pub ts : Picotime
  pub len : ℕ
  pub caplen : ℕ
  pub payload : ℕ → ℕ

-- `filter->index & (1 << offset)`, as a condition.
unfoldable pub selected : ℕ → ℕ → Bool
selected index offset = not (bit_and index (2 ^ offset) == 0)
