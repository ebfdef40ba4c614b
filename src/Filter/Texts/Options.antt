-- ===== src/Filter/Texts/Options.antt =====
-- The functions that set a criterion from a text, against the options of the command line.
use libcap_utils.Prelude.{ℕ, ◌≡◌, ◌⊎◌, inl, inr, refl, true, Option, none, some, List}
use libcap_utils.Filter.{Filter}
use libcap_utils.Filter.Setters.{select, filter_ci_set, filter_mampid_set, filter_frame_num_set}
use libcap_utils.Filter.Address.{filter_src_ip_aton, filter_dst_ip_aton}
use libcap_utils.Filter.Arguments.{Flag}
use libcap_utils.Filter.CommandLine.{Libraries, store_value, handle}
use libcap_utils.Filter.Texts.{
  filter_eth_type_set, filter_vlan_set, filter_eth_src_set, filter_eth_dst_set,
  filter_ip_proto_aton,
}

module _ (libraries : Libraries) where
  open libraries use {system}

  -- The filter behind the function for an option, if the option has one with a text.
  set_text : Flag → Filter → List ℕ → Option Filter
  unfolding filter_ci_set filter_mampid_set filter_frame_num_set filter_vlan_set filter_eth_type_set
      filter_eth_src_set filter_eth_dst_set filter_ip_proto_aton filter_src_ip_aton
      filter_dst_ip_aton
  set_text Flag.iface f str = some (filter_ci_set f str)
  set_text Flag.mampid f str = some (filter_mampid_set f str)
  set_text Flag.vlan f str = some (filter_vlan_set system f str)
  set_text Flag.eth_type f str = some (filter_eth_type_set f str)
  set_text Flag.eth_src f str = some (filter_eth_src_set system f str)
  set_text Flag.eth_dst f str = some (filter_eth_dst_set system f str)
  set_text Flag.ip_proto f str = some (filter_ip_proto_aton system f str)
  set_text Flag.ip_src f str = some (filter_src_ip_aton system.texts f str)
  set_text Flag.ip_dst f str = some (filter_dst_ip_aton system.texts f str)
  set_text Flag.frame_num f str = some (filter_frame_num_set f str)
  set_text _ f str = none

  -- With a text that is accepted, an option leaves the filter that the function for it leaves.
  handle-set_text :
      (flag : Flag) (arg : List ℕ) (f : Filter)
      → (store_value libraries flag arg f).0 ≡ true
      → (set_text flag f arg ≡ none) ⊎ (set_text flag f arg ≡ some (handle libraries flag arg f))
  unfolding handle store_value set_text select
  handle-set_text Flag.iface arg f ok = inr refl
  handle-set_text Flag.mampid arg f ok = inr refl
  handle-set_text Flag.frame_num arg f ok = inr refl
  handle-set_text Flag.vlan arg f ok = inr (rw ok refl)
  handle-set_text Flag.eth_type arg f ok = inr (rw ok refl)
  handle-set_text Flag.eth_src arg f ok = inr (rw ok refl)
  handle-set_text Flag.eth_dst arg f ok = inr (rw ok refl)
  handle-set_text Flag.ip_proto arg f ok = inr (rw ok refl)
  handle-set_text Flag.ip_src arg f ok = inr (rw ok refl)
  handle-set_text Flag.ip_dst arg f ok = inr (rw ok refl)
  handle-set_text _ arg f ok = inl refl
