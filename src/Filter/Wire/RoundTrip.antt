-- ===== src/Filter/Wire/RoundTrip.antt =====
-- What survives being packed and unpacked.
use libcap_utils.Prelude.{◌<◌, ◌≡◌, ◌^◌, refl, [], swap32, swap16-swap16, swap32-swap32}
use libcap_utils.Filter.{Filter, Mode, unknown, all_of, any_of}
use libcap_utils.Filter.Wire.{Packed, Inet, filter_pack, filter_unpack, mode_number, mode_of}

-- The fields of a filter that are swapped hold what their types can.
pub record IsTyped (f : Filter) : Type 0 where
  pub filter_id : f.filter_id < 2 ^ 32
  pub index : f.index < 2 ^ 32
  pub vlan_tci : f.vlan_tci < 2 ^ 16
  pub vlan_tci_mask : f.vlan_tci_mask < 2 ^ 16
  pub eth_type : f.eth_type < 2 ^ 16
  pub eth_type_mask : f.eth_type_mask < 2 ^ 16
  pub src_port : f.src_port < 2 ^ 16
  pub src_port_mask : f.src_port_mask < 2 ^ 16
  pub dst_port : f.dst_port < 2 ^ 16
  pub dst_port_mask : f.dst_port_mask < 2 ^ 16
  pub consumer : f.consumer < 2 ^ 32
  pub caplen : f.caplen < 2 ^ 32

mode_of-mode_number : (m : Mode) → mode_of (mode_number m) ≡ m
mode_of-mode_number unknown = refl
mode_of-mode_number all_of = refl
mode_of-mode_number any_of = refl

-- Unpacking what was packed gives the filter back, but for what is not sent: the times, the MAMPid,
-- the state and BPF program, and also `port` and its mask, which stay what the receiving filter
-- held, and for the local ranges, which are emptied. `version` is left in network order.
pub filter_unpack-pack :
    (inet : Inet) (f g : Filter) (p : Packed)
    → IsTyped f
    → filter_unpack inet (filter_pack inet f p) g ≡ record f {
      version = 2 ^ 25;
      starttime = g.starttime;
      endtime = g.endtime;
      mampid = g.mampid;
      port = g.port;
      port_mask = g.port_mask;
      frame_max_dt = g.frame_max_dt;
      frame_num = [];
      bpf_insn = g.bpf_insn;
      first = g.first;
      frame_counter = g.frame_counter;
      frame_last_ts = g.frame_last_ts;
    }
unfolding filter_pack filter_unpack
filter_unpack-pack inet f g p t =
    rw
      (
        swap32-swap32 f.filter_id t.filter_id,
        swap32-swap32 f.index t.index,
        swap16-swap16 f.vlan_tci t.vlan_tci,
        swap16-swap16 f.vlan_tci_mask t.vlan_tci_mask,
        swap16-swap16 f.eth_type t.eth_type,
        swap16-swap16 f.eth_type_mask t.eth_type_mask,
        swap16-swap16 f.src_port t.src_port,
        swap16-swap16 f.src_port_mask t.src_port_mask,
        swap16-swap16 f.dst_port t.dst_port,
        swap16-swap16 f.dst_port_mask t.dst_port_mask,
        swap32-swap32 f.consumer t.consumer,
        swap32-swap32 f.caplen t.caplen,
        mode_of-mode_number f.mode,
      )
      (unfold swap32 in refl)
