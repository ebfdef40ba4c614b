-- ===== src/Filter/CommandLine.antt =====
-- `filter_from_argv` of src/createfilter.c: the filter that a command line describes.
pub mod Accepts
pub mod Laws
use libcap_utils.Prelude.{
  ℕ, ◌^◌, Bool, true, false, Option, none, some, List, [], ◌∷◌, take, ◌==◌, if◌then◌else◌,
}
use libcap_utils.Text.{codes, atoi, wrapped, strcasecmp_eq}
use libcap_utils.Time.{Picotime}
use libcap_utils.Time.Text.{Dates, timepico_from_string}
use libcap_utils.Filter.{Filter, Mode, all_of, any_of}
use libcap_utils.Filter.Offset
use libcap_utils.Filter.Setters.{filter_init, select}
use libcap_utils.Filter.Ranges.{parse_frame_range}
use libcap_utils.Filter.Address.{parse_inet_addr}
use libcap_utils.Filter.Arguments
use libcap_utils.Filter.Arguments.{Flag, split_argv}
use libcap_utils.Filter.Values.{
  System, parse_port, parse_vlan, parse_eth_type, parse_eth_addr, parse_ip_proto,
}

-- What `getopt_long` returns for the filter's arguments, one by one: an option with its argument
-- `optarg`, or '?' for an error.
pub data Event : Type 0 where
  given : Flag → List ℕ → Event
  unknown : Event

-- What is called of other libraries: the system, its dates, `getopt_long` on a vector of arguments,
-- and libpcap's compiler, with the program as a list of words.
pub record Libraries : Type 0 where
  pub system : System
  pub dates : Dates
  pub getopt_long : List (List ℕ) → List Event
  pub pcap_compile : List ℕ → Option (List ℕ)

-- On Linux.
abbrev pub einval : ℕ
einval = 22

-- "update index bitmask", where the value was accepted.
abbrev pub update_index : Bool → ℕ → Filter → Filter
update_index true offset f = record f { index = select f.index offset }
update_index false offset f = f

-- A mode that is not known is ignored.
unfoldable pub mode_of : List ℕ → Mode → Mode
mode_of arg old =
    if strcasecmp_eq arg (codes "and")
    then all_of
    else if strcasecmp_eq arg (codes "or")
    then any_of
    else old

-- The bit of a criterion; the parameters have none, as they select nothing.
abbrev pub offset_of : Flag → Option ℕ
offset_of Flag.tp_port = some Offset.port
offset_of Flag.start_time = some Offset.start_time
offset_of Flag.end_time = some Offset.end_time
offset_of Flag.mampid = some Offset.mampid
offset_of Flag.iface = some Offset.iface
offset_of Flag.vlan = some Offset.vlan
offset_of Flag.eth_type = some Offset.eth_type
offset_of Flag.eth_src = some Offset.eth_src
offset_of Flag.eth_dst = some Offset.eth_dst
offset_of Flag.ip_proto = some Offset.ip_proto
offset_of Flag.ip_src = some Offset.ip_src
offset_of Flag.ip_dst = some Offset.ip_dst
offset_of Flag.src_port = some Offset.src_port
offset_of Flag.dst_port = some Offset.dst_port
offset_of Flag.frame_max_dt = some Offset.frame_max_dt
offset_of Flag.frame_num = some Offset.frame_num
offset_of Flag.caplen = none
offset_of Flag.mode = none
offset_of Flag.bpf = none

-- The arguments of `filter_from_argv`, which are not null: `*argcptr` is 0, or it is not but `argv` is
-- null, or there is a program's name with arguments behind it.
pub data CommandLine : Type 0 where
  without missing : CommandLine
  vector : List ℕ → List (List ℕ) → CommandLine

module _ (libraries : Libraries) where
  open libraries use {system, dates, getopt_long, pcap_compile}

  -- `bpf_set` releases the old program. If the new one does not compile, the pointers to the old one
  -- and to its text are left behind; there is no program here then.
  unfoldable pub bpf_set : Filter → List ℕ → Filter × ℕ
  bpf_set f expr = elim (pcap_compile expr) [
    | none ↦ (record f { bpf_insn = none }, einval)
    | some program ↦ (record f { bpf_insn = some program }, 0)
  ]

  -- The options that set a field and select a criterion: whether the value is accepted, and the filter
  -- with what is stored in either case.
  unfoldable pub store_value : Flag → List ℕ → Filter → Bool × Filter
  store_value Flag.tp_port arg f =
      let (ok, port, mask) = parse_port system arg f.port f.port_mask in
      (ok, record f { port = port; port_mask = mask })
  store_value Flag.start_time arg f =
      let (ok, t) = timepico_from_string dates arg in (ok, record f { starttime = t })
  store_value Flag.end_time arg f =
      let (ok, t) = timepico_from_string dates arg in (ok, record f { endtime = t })
  store_value Flag.mampid arg f = (true, record f { mampid = take 8 arg })
  store_value Flag.iface arg f = (true, record f { iface = take 8 arg })
  store_value Flag.vlan arg f =
      let (ok, tci, mask) = parse_vlan system arg f.vlan_tci f.vlan_tci_mask in
      (ok, record f { vlan_tci = tci; vlan_tci_mask = mask })
  store_value Flag.eth_type arg f =
      let (ok, type, mask) = parse_eth_type arg f.eth_type f.eth_type_mask in
      (ok, record f { eth_type = type; eth_type_mask = mask })
  store_value Flag.eth_src arg f =
      let (ok, addr, mask) = parse_eth_addr system arg f.eth_src f.eth_src_mask in
      (ok, record f { eth_src = addr; eth_src_mask = mask })
  store_value Flag.eth_dst arg f =
      let (ok, addr, mask) = parse_eth_addr system arg f.eth_dst f.eth_dst_mask in
      (ok, record f { eth_dst = addr; eth_dst_mask = mask })
  store_value Flag.ip_proto arg f =
      let (ok, proto) = parse_ip_proto system arg f.ip_proto in (ok, record f { ip_proto = proto })
  store_value Flag.ip_src arg f =
      let (ok, addr, mask) = parse_inet_addr system.texts arg f.ip_src f.ip_src_mask in
      (ok, record f { ip_src = addr; ip_src_mask = mask })
  store_value Flag.ip_dst arg f =
      let (ok, addr, mask) = parse_inet_addr system.texts arg f.ip_dst f.ip_dst_mask in
      (ok, record f { ip_dst = addr; ip_dst_mask = mask })
  store_value Flag.src_port arg f =
      let (ok, port, mask) = parse_port system arg f.src_port f.src_port_mask in
      (ok, record f { src_port = port; src_port_mask = mask })
  store_value Flag.dst_port arg f =
      let (ok, port, mask) = parse_port system arg f.dst_port f.dst_port_mask in
      (ok, record f { dst_port = port; dst_port_mask = mask })
  store_value Flag.frame_max_dt arg f =
      let (ok, t) = timepico_from_string dates arg in (ok, record f { frame_max_dt = t })
  store_value Flag.frame_num arg f =
      (true, record f { frame_num = parse_frame_range arg f.frame_num })
  store_value Flag.caplen arg f = (false, record f { caplen = wrapped (2 ^ 32) (atoi arg) })
  store_value Flag.mode arg f = (false, record f { mode = mode_of arg f.mode })
  store_value Flag.bpf arg f = (false, (bpf_set f arg).0)

  -- What `ret` is after an option.
  unfoldable pub status : Flag → List ℕ → Filter → ℕ
  unfolding bpf_set
  status Flag.bpf arg f = (bpf_set f arg).1
  status _ arg f = 0

  -- The filter after an option: the bit of the criterion is set where its value is accepted.
  unfoldable pub handle : Flag → List ℕ → Filter → Filter
  handle flag arg f =
      let (ok, g) = store_value flag arg f in
      elim (offset_of flag) [ none ↦ g | some offset ↦ update_index ok offset g ]

  -- The loop, with `ret` behind it.
  unfoldable pub run_events : Filter → List Event → ℕ × Filter
  unfolding status handle
  run_events f [] = (0, f)
  run_events f (unknown ∷ events) = (1, f)
  run_events f (given flag arg ∷ events) =
      let rest = run_events (handle flag arg f) events in
      let ret = status flag arg f in if ret == 0 then rest else (ret, handle flag arg f)

  -- What is returned, the filter, and the arguments that are left in `argv`.
  unfoldable pub filter_from_argv : CommandLine → ℕ × Filter × List (List ℕ)
  unfolding run_events split_argv filter_init
  filter_from_argv without = (0, filter_init, [])
  filter_from_argv missing = (einval, filter_init, [])
  filter_from_argv (vector program args) =
      let (left, copied) = split_argv program args in
      let (ret, f) = run_events filter_init (getopt_long copied) in (ret, f, left)
