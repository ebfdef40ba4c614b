-- ===== src/Tests/Filters.antt =====
-- The theorems on the packet filter at concrete filters and packets.
use libcap_utils.Prelude.{
  ℕ, zero, suc, ◌+◌, ◌^◌, ◌≡◌, refl, none, Bool, true, List, [], ◌∷◌, Memory, be16, arith, inl,
}
use libcap_utils.Packet.{find_ipv4_header, find_loop}
use libcap_utils.Packet.Ipv4.{Tagged, type_at}
use libcap_utils.Filter.Core.Transport.{ports_at}
use libcap_utils.Filter.{Filter, CapHeader}
use libcap_utils.Filter.Offset
use libcap_utils.Filter.Core.{filter_core}
use libcap_utils.Filter.Core.Words.{selections}
use libcap_utils.Filter.Core.Decision.{
  IsWellFormed, judgement, criteria, header_at, filter_core-judgement,
}
use libcap_utils.Filter.Frames.Run.{Ends}
use libcap_utils.Filter.Wire.{Inet, Packed, filter_pack, filter_unpack}
use libcap_utils.Filter.Wire.RoundTrip.{IsTyped, filter_unpack-pack}
use libcap_utils.Filter.Setters.{filter_init}
use libcap_utils.Time.{Picotime}
use libcap_utils.Tests.{tagged, plain, head_of, frame_filter, noon, later}

-- A filter on TCP packets to port 80.
abbrev web : Filter
web = record filter_init {
  index = 2 ^ Offset.ip_proto + 2 ^ Offset.dst_port;
  ip_proto = 6;
  dst_port = 80;
  dst_port_mask = 0xffff;
}

web-IsWellFormed : IsWellFormed web
unfolding filter_init
web-IsWellFormed = record { index_fits = omega arith; ranges_selected = inl refl }

tagged-Tagged : Tagged tagged 1
unfolding be16
tagged-Tagged zero b = refl
tagged-Tagged (suc j) b = absurd (omega arith)

filter_core-judgement_example :
    filter_core 1 web tagged (head_of tagged)
    ≡ judgement web.mode (selections 16 0 web.index) (
        criteria web tagged
          (head_of tagged)
          (header_at tagged 1)
          (true, type_at tagged 1)
          (ports_at tagged (header_at tagged 1)))
unfolding be16
filter_core-judgement_example =
    filter_core-judgement 1 1 web tagged (head_of tagged) web-IsWellFormed (omega arith)
      (omega arith) tagged-Tagged (omega arith)

-- A BPF program that lets every packet pass.
abbrev pub pass : List ℕ → Memory → ℕ → ℕ → Bool
pass program m len caplen = true

pub plain-Ends : Ends 1 (head_of plain)
unfolding find_ipv4_header find_loop be16
plain-Ends = λ e. absurd (ground arith)

-- Frames at noon, 1.8 seconds later, and at noon again, where up to two seconds are allowed.
abbrev two_seconds : Picotime
two_seconds = record { tv_sec = 2; tv_psec = 0 }

abbrev behind : List CapHeader
behind = record (head_of plain) { ts = later } ∷ head_of plain ∷ []

abbrev no_text : Inet
no_text = record { ntoa = λ a. a ∷ []; aton = λ t. none }

abbrev blank : Packed
blank = record {
  filter_id = 0;
  index = 0;
  iface = [];
  vlan_tci = 0;
  eth_type = 0;
  eth_src = [];
  eth_dst = [];
  ip_proto = 0;
  ascii_ip_src = [];
  ascii_ip_dst = [];
  src_port = 0;
  dst_port = 0;
  vlan_tci_mask = 0;
  eth_type_mask = 0;
  eth_src_mask = [];
  eth_dst_mask = [];
  ascii_ip_src_mask = [];
  ascii_ip_dst_mask = [];
  src_port_mask = 0;
  dst_port_mask = 0;
  consumer = 0;
  caplen = 0;
  dest = [];
  version = 0;
  starttime = noon;
  endtime = noon;
  mampid = [];
  ip_src = 0;
  ip_src_mask = 0;
  ip_dst = 0;
  ip_dst_mask = 0;
  port = 0;
  port_mask = 0;
  mode = 0;
}

web-IsTyped : IsTyped web
unfolding filter_init
web-IsTyped = record {
  filter_id = omega arith;
  index = omega arith;
  vlan_tci = omega arith;
  vlan_tci_mask = omega arith;
  eth_type = omega arith;
  eth_type_mask = omega arith;
  src_port = omega arith;
  src_port_mask = omega arith;
  dst_port = omega arith;
  dst_port_mask = omega arith;
  consumer = omega arith;
  caplen = omega arith;
}

filter_unpack-pack_example :
    filter_unpack no_text (filter_pack no_text web blank) frame_filter ≡ record web {
      version = 2 ^ 25;
      starttime = frame_filter.starttime;
      endtime = frame_filter.endtime;
      mampid = frame_filter.mampid;
      port = frame_filter.port;
      port_mask = frame_filter.port_mask;
      frame_max_dt = frame_filter.frame_max_dt;
      frame_num = [];
      bpf_insn = frame_filter.bpf_insn;
      first = frame_filter.first;
      frame_counter = frame_filter.frame_counter;
      frame_last_ts = frame_filter.frame_last_ts;
    }
filter_unpack-pack_example = filter_unpack-pack no_text web frame_filter blank web-IsTyped
