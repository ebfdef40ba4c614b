-- ===== src/Filter/Setters.antt =====
-- `filter_init` and the functions of src/createfilter.c that set one criterion of a filter.
pub mod Laws
use libcap_utils.Prelude.{
  ℕ, ◌-◌, ◌^◌, Bool, true, false, none, List, [], take, bit_and, bit_or, u8, u16,
}
use libcap_utils.Time.{Picotime}
use libcap_utils.Filter.{Filter, Mode, all_of, Range}
use libcap_utils.Filter.Offset
use libcap_utils.Filter.Ranges.{parse_frame_range}

abbrev pub no_time : Picotime
no_time = record { tv_sec = 0; tv_psec = 0 }

-- `memset` and the fields that are set after it. `caplen` is -1 as a uint32_t.
unfoldable pub filter_init : Filter
filter_init = record {
  filter_id = 0;
  version = 0;
  mode = all_of;
  index = 0;
  starttime = no_time;
  endtime = no_time;
  mampid = [];
  iface = [];
  vlan_tci = 0;
  vlan_tci_mask = 0;
  eth_type = 0;
  eth_type_mask = 0;
  eth_src = [];
  eth_src_mask = [];
  eth_dst = [];
  eth_dst_mask = [];
  ip_proto = 0;
  ip_src = 0;
  ip_src_mask = 0;
  ip_dst = 0;
  ip_dst_mask = 0;
  src_port = 0;
  src_port_mask = 0;
  dst_port = 0;
  dst_port_mask = 0;
  port = 0;
  port_mask = 0;
  frame_max_dt = no_time;
  frame_num = [];
  bpf_insn = none;
  first = true;
  frame_counter = 1;
  frame_last_ts = no_time;
  consumer = 0;
  caplen = 2 ^ 32 - 1;
  dest = [];
}

-- `filter->index |= 1 << offset`
unfoldable pub select : ℕ → ℕ → ℕ
select index offset = bit_or index (2 ^ offset)

-- `strncpy(.., str, 8)`
unfoldable pub filter_ci_set : Filter → List ℕ → Filter
filter_ci_set f str = record f { index = select f.index Offset.iface; iface = take 8 str }

-- The protocol is cut to a uint8_t.
unfoldable pub filter_ip_proto_set : Filter → ℕ → Filter
filter_ip_proto_set f proto = record f {
  index = select f.index Offset.ip_proto;
  ip_proto = u8 proto;
}

unfoldable pub filter_src_port_set : Filter → ℕ → ℕ → Filter
filter_src_port_set f port mask = record f {
  index = select f.index Offset.src_port;
  src_port = bit_and port mask;
  src_port_mask = mask;
}

unfoldable pub filter_dst_port_set : Filter → ℕ → ℕ → Filter
filter_dst_port_set f port mask = record f {
  index = select f.index Offset.dst_port;
  dst_port = bit_and port mask;
  dst_port_mask = mask;
}

unfoldable pub filter_tp_port_set : Filter → ℕ → ℕ → Filter
filter_tp_port_set f port mask = record f {
  index = select f.index Offset.port;
  port = bit_and port mask;
  port_mask = mask;
}

unfoldable pub filter_src_ip_set : Filter → ℕ → ℕ → Filter
filter_src_ip_set f ip mask = record f {
  index = select f.index Offset.ip_src;
  ip_src = bit_and ip mask;
  ip_src_mask = mask;
}

unfoldable pub filter_dst_ip_set : Filter → ℕ → ℕ → Filter
filter_dst_ip_set f ip mask = record f {
  index = select f.index Offset.ip_dst;
  ip_dst = bit_and ip mask;
  ip_dst_mask = mask;
}

unfoldable pub filter_mampid_set : Filter → List ℕ → Filter
filter_mampid_set f mampid = record f {
  index = select f.index Offset.mampid;
  mampid = take 8 mampid;
}

unfoldable pub filter_starttime_set : Filter → Picotime → Filter
filter_starttime_set f t = record f { index = select f.index Offset.start_time; starttime = t }

unfoldable pub filter_endtime_set : Filter → Picotime → Filter
filter_endtime_set f t = record f { index = select f.index Offset.end_time; endtime = t }

unfoldable pub filter_frame_dt_set : Filter → Picotime → Filter
filter_frame_dt_set f t = record f { index = select f.index Offset.frame_max_dt; frame_max_dt = t }

unfoldable pub filter_frame_num_set : Filter → List ℕ → Filter
filter_frame_num_set f str = record f {
  index = select f.index Offset.frame_num;
  frame_num = parse_frame_range str f.frame_num;
}
