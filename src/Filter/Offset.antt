-- ===== src/Filter/Offset.antt =====
-- `enum FilterOffset` of caputils/filter.h: the bit of each criterion in the index.
use libcap_utils.Prelude.{ℕ}

abbrev pub dst_port : ℕ
dst_port = 0

abbrev pub src_port : ℕ
src_port = 1

abbrev pub ip_dst : ℕ
ip_dst = 2

abbrev pub ip_src : ℕ
ip_src = 3

abbrev pub ip_proto : ℕ
ip_proto = 4

abbrev pub eth_dst : ℕ
eth_dst = 5

abbrev pub eth_src : ℕ
eth_src = 6

abbrev pub eth_type : ℕ
eth_type = 7

abbrev pub vlan : ℕ
vlan = 8

abbrev pub iface : ℕ
iface = 9

abbrev pub mampid : ℕ
mampid = 10

abbrev pub end_time : ℕ
end_time = 11

abbrev pub start_time : ℕ
start_time = 12

abbrev pub port : ℕ
port = 13

abbrev pub frame_max_dt : ℕ
frame_max_dt = 14

abbrev pub frame_num : ℕ
frame_num = 15
