-- ===== src/Filter/Wire.antt =====
-- `filter_pack` and `filter_unpack` of src/filter.c: a filter as it is sent between hosts. The
-- multi-byte fields of `struct filter_packed` are in network order, each field here being the word
-- that the host reads.
pub mod RoundTrip
use libcap_utils.Prelude.{
  ℕ, ◌+◌, Bool, Option, none, some, List, [], ◌==◌, ◌&&◌, ◌^◌, leb, ltb, if◌then◌else◌, swap16,
  swap32,
}
use libcap_utils.Time.{Picotime}
use libcap_utils.Filter.{Filter, Mode, unknown, all_of, any_of}

-- `struct filter_packed`. The ASCII addresses are those that `ascii_` precedes.
pub record Packed : Type 0 where
  pub filter_id : ℕ
  pub index : ℕ
  pub iface : List ℕ
  pub vlan_tci : ℕ
  pub eth_type : ℕ
  pub eth_src : List ℕ
  pub eth_dst : List ℕ
  pub ip_proto : ℕ
  pub ascii_ip_src : List ℕ
  pub ascii_ip_dst : List ℕ
  pub src_port : ℕ
  pub dst_port : ℕ
  pub vlan_tci_mask : ℕ
  pub eth_type_mask : ℕ
  pub eth_src_mask : List ℕ
  pub eth_dst_mask : List ℕ
  pub ascii_ip_src_mask : List ℕ
  pub ascii_ip_dst_mask : List ℕ
  pub src_port_mask : ℕ
  pub dst_port_mask : ℕ
  pub consumer : ℕ
  pub caplen : ℕ
  pub dest : List ℕ
  pub version : ℕ
  pub starttime : Picotime
  pub endtime : Picotime
  pub mampid : List ℕ
  pub ip_src : ℕ
  pub ip_src_mask : ℕ
  pub ip_dst : ℕ
  pub ip_dst_mask : ℕ
  pub port : ℕ
  pub port_mask : ℕ
  pub mode : ℕ

-- The numbers of `enum FilterMode`. A byte that is none of them acts as FILTER_UNKNOWN does.
abbrev pub mode_number : Mode → ℕ
mode_number unknown = 0
mode_number all_of = 1
mode_number any_of = 2

abbrev pub mode_of : ℕ → Mode
mode_of n = if n == 1 then all_of else if n == 2 then any_of else unknown

-- The system's conversions between an address and its text. `aton` is none where `inet_aton`
-- refuses the text and leaves the address alone.
pub record Inet : Type 0 where
  pub ntoa : ℕ → List ℕ
  pub aton : List ℕ → Option ℕ

module _ (inet : Inet) where
  -- `dst` is what the packed filter held before: the times and the MAMPid are not written.
  unfoldable pub filter_pack : Filter → Packed → Packed
  filter_pack src dst = record dst {
    filter_id = swap32 src.filter_id;
    index = swap32 src.index;
    vlan_tci = swap16 src.vlan_tci;
    eth_type = swap16 src.eth_type;
    ip_proto = src.ip_proto;
    src_port = swap16 src.src_port;
    dst_port = swap16 src.dst_port;
    port = swap16 src.port;
    vlan_tci_mask = swap16 src.vlan_tci_mask;
    eth_type_mask = swap16 src.eth_type_mask;
    src_port_mask = swap16 src.src_port_mask;
    dst_port_mask = swap16 src.dst_port_mask;
    port_mask = swap16 src.port_mask;
    consumer = swap32 src.consumer;
    caplen = swap32 src.caplen;
    mode = mode_number src.mode;
    ip_src = src.ip_src;
    ip_dst = src.ip_dst;
    ip_src_mask = src.ip_src_mask;
    ip_dst_mask = src.ip_dst_mask;
    ascii_ip_src = inet.ntoa src.ip_src;
    ascii_ip_dst = inet.ntoa src.ip_dst;
    ascii_ip_src_mask = inet.ntoa src.ip_src_mask;
    ascii_ip_dst_mask = inet.ntoa src.ip_dst_mask;
    iface = src.iface;
    eth_src = src.eth_src;
    eth_dst = src.eth_dst;
    eth_src_mask = src.eth_src_mask;
    eth_dst_mask = src.eth_dst_mask;
    dest = src.dest;
    version = swap32 2;
  }

  -- An address of a filter: version 0 has it in ASCII, and a text that is refused changes nothing.
  address : ℕ → List ℕ → ℕ → ℕ → ℕ
  address version ascii word old =
      let parsed : ℕ = elim (inet.aton ascii) [ none ↦ old | some a ↦ a ] in
      if version == 0 then parsed else word

  -- `dst` is what the filter held before. The version is compared as an int.
  unfoldable pub filter_unpack : Packed → Filter → Filter
  unfolding address
  filter_unpack src dst =
      let version = swap32 src.version in
      record dst {
        filter_id = swap32 src.filter_id;
        index = swap32 src.index;
        vlan_tci = swap16 src.vlan_tci;
        eth_type = swap16 src.eth_type;
        ip_proto = src.ip_proto;
        src_port = swap16 src.src_port;
        dst_port = swap16 src.dst_port;
        vlan_tci_mask = swap16 src.vlan_tci_mask;
        eth_type_mask = swap16 src.eth_type_mask;
        src_port_mask = swap16 src.src_port_mask;
        dst_port_mask = swap16 src.dst_port_mask;
        consumer = swap32 src.consumer;
        caplen = swap32 src.caplen;
        ip_src = address version src.ascii_ip_src src.ip_src dst.ip_src;
        ip_dst = address version src.ascii_ip_dst src.ip_dst dst.ip_dst;
        ip_src_mask = address version src.ascii_ip_src_mask src.ip_src_mask dst.ip_src_mask;
        ip_dst_mask = address version src.ascii_ip_dst_mask src.ip_dst_mask dst.ip_dst_mask;
        mode = if leb 2 version && ltb version (2 ^ 31) then mode_of src.mode else all_of;
        iface = src.iface;
        eth_src = src.eth_src;
        eth_dst = src.eth_dst;
        eth_src_mask = src.eth_src_mask;
        eth_dst_mask = src.eth_dst_mask;
        dest = src.dest;
        version = swap32 2;
        frame_num = [];
      }
