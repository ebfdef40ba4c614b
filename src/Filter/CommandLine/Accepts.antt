-- ===== src/Filter/CommandLine/Accepts.antt =====
-- The options of src/createfilter.c: the criterion that each one is for, and the values that it takes.
use libcap_utils.Prelude.{
  ℕ, ◌≡◌, refl, Bool, true, false, Option, none, some, List, [], ◌∷◌, ◌==◌, ◌&&◌, ◌||◌, not, leb,
  if◌then◌else◌, arith, get_or,
}
use libcap_utils.Text.{codes, is_digit, is_space, skip_spaces, scan_int, has}
use libcap_utils.Time.Text.{iso, compact, short, epoch, find_date, timepico_from_string}
use libcap_utils.Packet.Ethertype.{ethertype_by_name}
use libcap_utils.Filter.{Filter}
use libcap_utils.Filter.Address.{split, parse_mask, parse_inet_addr}
use libcap_utils.Filter.Arguments.{Flag}
use libcap_utils.Filter.Values.{
  is_blank, port_value, parse_port, parse_vlan, parse_eth_type, eth_type_value, parse_eth_addr,
  parse_ip_proto,
}
use libcap_utils.Filter.CommandLine.{Libraries, store_value, offset_of}

-- The number of the bit that an option is for, in the order of `enum FilterOffset`.
abbrev pub criterion : Flag → Option ℕ
criterion Flag.dst_port = some 0
criterion Flag.src_port = some 1
criterion Flag.ip_dst = some 2
criterion Flag.ip_src = some 3
criterion Flag.ip_proto = some 4
criterion Flag.eth_dst = some 5
criterion Flag.eth_src = some 6
criterion Flag.eth_type = some 7
criterion Flag.vlan = some 8
criterion Flag.iface = some 9
criterion Flag.mampid = some 10
criterion Flag.end_time = some 11
criterion Flag.start_time = some 12
criterion Flag.tp_port = some 13
criterion Flag.frame_max_dt = some 14
criterion Flag.frame_num = some 15
criterion Flag.caplen = none
criterion Flag.mode = none
criterion Flag.bpf = none

pub offset_of-criterion : (flag : Flag) → offset_of flag ≡ criterion flag
offset_of-criterion Flag.tp_port = refl
offset_of-criterion Flag.caplen = refl
offset_of-criterion _ = refl

abbrev pub is_some {ℓ} : {A : Type ℓ} → Option A → Bool
is_some none = false
is_some (some x) = true

-- A value and its mask, apart at the first '/'.
abbrev pub before_slash : List ℕ → List ℕ
before_slash [] = []
before_slash (c ∷ s) = let rest = before_slash s in if c == 47 then [] else c ∷ rest

abbrev pub behind_slash : List ℕ → Option (List ℕ)
behind_slash [] = none
behind_slash (c ∷ s) = let rest = behind_slash s in if c == 47 then some s else rest

abbrev pub or_text : Option (List ℕ) → List ℕ → List ℕ
or_text none text = text
or_text (some s) text = s

abbrev pub has_digit_first : List ℕ → Bool
has_digit_first [] = false
has_digit_first (c ∷ s) = leb 48 c && leb c 57

abbrev pub is_all_space : List ℕ → Bool
is_all_space [] = true
is_all_space (c ∷ s) = is_space c && is_all_space s

split-slash : (s : List ℕ) → split s ≡ (before_slash s, behind_slash s)
unfolding split
split-slash [] = refl
split-slash (c ∷ s) = ground (arith, split-slash s)

blank-spaces : (s : List ℕ) → is_blank s ≡ is_all_space s
unfolding skip_spaces
blank-spaces [] = refl
blank-spaces (c ∷ s) = ground (arith, blank-spaces s)

digit_first : (s : List ℕ) → is_digit (get_or s 0 0) ≡ has_digit_first s
digit_first [] = refl
digit_first (c ∷ s) = refl

module _ (libraries : Libraries) where
  open libraries use {system, dates}

  -- A service, or a number.
  abbrev pub takes_port : List ℕ → Bool
  takes_port text = is_some (system.getservbyname text) || has_digit_first text

  -- The dotted address, or a number of bits.
  abbrev pub takes_mask : List ℕ → Bool
  takes_mask text =
      not (has 46 text) && leb (system.texts.atoi text) 32 || is_some (system.texts.aton text)

  abbrev pub takes_date : List ℕ → Bool
  takes_date text =
      is_some (dates iso text)
      || (is_some (dates compact text)
          || (is_some (dates short text) || is_some (dates epoch text)))

  -- What is in front of a '/' is the value, and the mask is behind it.
  abbrev pub takes_ether : List ℕ → Bool
  takes_ether text =
      is_some (system.ether_aton (before_slash text))
      && is_some (system.ether_aton (or_text (behind_slash text) (codes "FF:FF:FF:FF:FF:FF")))

  abbrev pub takes_address : List ℕ → Bool
  takes_address text =
      is_some (system.texts.aton (before_slash text))
      && takes_mask (or_text (behind_slash text) (codes "255.255.255.255"))

  -- The values that an option takes, of those that select a criterion.
  abbrev pub takes : Flag → List ℕ → Bool
  takes Flag.tp_port text = takes_port (before_slash text)
  takes Flag.src_port text = takes_port (before_slash text)
  takes Flag.dst_port text = takes_port (before_slash text)
  takes Flag.start_time text = takes_date text
  takes Flag.end_time text = takes_date text
  takes Flag.frame_max_dt text = takes_date text
  takes Flag.mampid text = true
  takes Flag.iface text = true
  takes Flag.frame_num text = true
  takes Flag.vlan text = is_all_space text || is_some (system.scan_short text)
  takes Flag.eth_type text =
      is_some (ethertype_by_name (before_slash text))
      || (is_all_space (before_slash text) || is_some (scan_int (before_slash text)))
  takes Flag.eth_src text = takes_ether text
  takes Flag.eth_dst text = takes_ether text
  takes Flag.ip_proto text = is_some (system.getprotobyname text) || has_digit_first text
  takes Flag.ip_src text = takes_address text
  takes Flag.ip_dst text = takes_address text
  takes Flag.caplen text = false
  takes Flag.mode text = false
  takes Flag.bpf text = false

  port-takes :
      (text : List ℕ) (port mask : ℕ)
      → (parse_port system text port mask).0 ≡ takes_port (before_slash text)
  unfolding parse_port port_value
  port-takes text port mask = ground (arith, split-slash text, digit_first (before_slash text))

  date-takes : (text : List ℕ) → (timepico_from_string dates text).0 ≡ takes_date text
  unfolding timepico_from_string find_date
  date-takes text = ground (arith)

  vlan-takes :
      (text : List ℕ) (tci mask : ℕ)
      → (parse_vlan system text tci mask).0
        ≡ (is_all_space text || is_some (system.scan_short text))
  unfolding parse_vlan
  vlan-takes text tci mask = ground (arith, blank-spaces text)

  eth_type-takes :
      (text : List ℕ) (type mask : ℕ) → (parse_eth_type text type mask).0 ≡ takes Flag.eth_type text
  unfolding parse_eth_type eth_type_value
  eth_type-takes text type mask = ground (arith, split-slash text, blank-spaces (before_slash text))

  eth_addr-takes :
      (text addr mask : List ℕ) → (parse_eth_addr system text addr mask).0 ≡ takes_ether text
  unfolding parse_eth_addr
  eth_addr-takes text addr mask = ground (arith, split-slash text)

  ip_proto-takes :
      (text : List ℕ) (proto : ℕ) → (parse_ip_proto system text proto).0 ≡ takes Flag.ip_proto text
  unfolding parse_ip_proto
  ip_proto-takes text proto = ground (arith, digit_first text)

  mask-takes : (text : List ℕ) → is_some (parse_mask system.texts text) ≡ takes_mask text
  unfolding parse_mask
  mask-takes text = ground (arith)

  inet_addr-takes :
      (text : List ℕ) (addr mask : ℕ)
      → (parse_inet_addr system.texts text addr mask).0 ≡ takes_address text
  unfolding parse_inet_addr
  inet_addr-takes text addr mask =
      ground (
        arith,
        split-slash text,
        mask-takes (or_text (behind_slash text) (codes "255.255.255.255")),
      )

  pub store_value-takes :
      (flag : Flag) (text : List ℕ) (f : Filter)
      → (store_value libraries flag text f).0 ≡ takes flag text
  unfolding store_value
  store_value-takes Flag.tp_port text f = port-takes text f.port f.port_mask
  store_value-takes Flag.src_port text f = port-takes text f.src_port f.src_port_mask
  store_value-takes Flag.dst_port text f = port-takes text f.dst_port f.dst_port_mask
  store_value-takes Flag.start_time text f = date-takes text
  store_value-takes Flag.end_time text f = date-takes text
  store_value-takes Flag.frame_max_dt text f = date-takes text
  store_value-takes Flag.vlan text f = vlan-takes text f.vlan_tci f.vlan_tci_mask
  store_value-takes Flag.eth_type text f = eth_type-takes text f.eth_type f.eth_type_mask
  store_value-takes Flag.eth_src text f = eth_addr-takes text f.eth_src f.eth_src_mask
  store_value-takes Flag.eth_dst text f = eth_addr-takes text f.eth_dst f.eth_dst_mask
  store_value-takes Flag.ip_proto text f = ip_proto-takes text f.ip_proto
  store_value-takes Flag.ip_src text f = inet_addr-takes text f.ip_src f.ip_src_mask
  store_value-takes Flag.ip_dst text f = inet_addr-takes text f.ip_dst f.ip_dst_mask
  store_value-takes _ text f = refl
