-- ===== src/Filter/Texts.antt =====
-- The functions of src/createfilter.c that set a criterion from a text, as the command line does, and
-- `filter_close`. They select the criterion also where the text is refused.
pub mod Options
use libcap_utils.Prelude.{ℕ, List, [], none}
use libcap_utils.Filter.{Filter}
use libcap_utils.Filter.Offset
use libcap_utils.Filter.Setters.{select}
use libcap_utils.Filter.Values.{System, parse_vlan, parse_eth_type, parse_eth_addr, parse_ip_proto}

unfoldable pub filter_eth_type_set : Filter → List ℕ → Filter
unfolding parse_eth_type
filter_eth_type_set f str =
    let (_, type, mask) = parse_eth_type str f.eth_type f.eth_type_mask in
    record f { index = select f.index Offset.eth_type; eth_type = type; eth_type_mask = mask }

module _ (system : System) where
  unfoldable pub filter_vlan_set : Filter → List ℕ → Filter
  unfolding parse_vlan
  filter_vlan_set f str =
      let (_, tci, mask) = parse_vlan system str f.vlan_tci f.vlan_tci_mask in
      record f { index = select f.index Offset.vlan; vlan_tci = tci; vlan_tci_mask = mask }

  unfoldable pub filter_eth_src_set : Filter → List ℕ → Filter
  unfolding parse_eth_addr
  filter_eth_src_set f str =
      let (_, addr, mask) = parse_eth_addr system str f.eth_src f.eth_src_mask in
      record f { index = select f.index Offset.eth_src; eth_src = addr; eth_src_mask = mask }

  unfoldable pub filter_eth_dst_set : Filter → List ℕ → Filter
  unfolding parse_eth_addr
  filter_eth_dst_set f str =
      let (_, addr, mask) = parse_eth_addr system str f.eth_dst f.eth_dst_mask in
      record f { index = select f.index Offset.eth_dst; eth_dst = addr; eth_dst_mask = mask }

  unfoldable pub filter_ip_proto_aton : Filter → List ℕ → Filter
  unfolding parse_ip_proto
  filter_ip_proto_aton f str =
      let (_, proto) = parse_ip_proto system str f.ip_proto in
      record f { index = select f.index Offset.ip_proto; ip_proto = proto }

-- What is freed is there no more. The list of frame ranges is freed, but the pointer to it is kept; a
-- filter that is closed has no ranges here.
unfoldable pub filter_close : Filter → Filter
filter_close f = record f { bpf_insn = none; frame_num = [] }
