-- ===== src/Filter/Values.antt =====
-- The parsers of src/createfilter.c for the values of options: ports, VLAN tags, Ethernet types and
-- addresses, IP protocols. Each returns whether it accepts the text, and what it stores. The messages
-- are left out.
use libcap_utils.Prelude.{
  ℕ, ◌^◌, Bool, true, false, Option, none, some, List, [], ◌∷◌, ◌==◌, if◌then◌else◌, bit_and,
  get_or, drop, u8,
}
use libcap_utils.Text.{
  codes, is_digit, skip_spaces, scan_int, atoi, strtol_hex, has_hex_prefix, wrapped,
}
use libcap_utils.Packet.Ethertype.{ethertype_by_name}
use libcap_utils.Filter.Address.{Texts, slash, split}

-- What the code calls of the system: the texts of IPv4 addresses, the port of a service in host order,
-- the number of a protocol, the octets of an Ethernet address, and the conversion `%hi` of `sscanf`,
-- which reads octal and hexadecimal numbers too, with the text behind the number.
pub record System : Type 0 where
  pub texts : Texts
  pub getservbyname : List ℕ → Option ℕ
  pub getprotobyname : List ℕ → Option ℕ
  pub ether_aton : List ℕ → Option (List ℕ)
  pub scan_short : List ℕ → Option (ℕ × List ℕ)

-- The mask behind the separator, for ports and Ethernet types.
unfoldable pub mask_value : List ℕ → ℕ
mask_value text =
    if has_hex_prefix text
    then wrapped (2 ^ 16) (strtol_hex (drop 2 text))
    else wrapped (2 ^ 16) (atoi text)

abbrev pub mask_behind : Option (List ℕ) → ℕ
mask_behind none = 0xFFFF
mask_behind (some text) = mask_value text

-- `sscanf` has come to the end of the text before the first conversion, and returns EOF.
abbrev pub is_blank : List ℕ → Bool
is_blank s = elim (skip_spaces s) [ [] ↦ true | _ ∷ _ ↦ false ]

abbrev pub vlan_mask : (List ℕ → Option (ℕ × List ℕ)) → List ℕ → ℕ
vlan_mask scan_short [] = 0xFFFF
vlan_mask scan_short (c ∷ rest) =
    if c == slash then elim (scan_short rest) [ none ↦ 0xFFFF | some (mask, _) ↦ mask ] else 0xFFFF

abbrev pub eth_mask_text : Option (List ℕ) → List ℕ
eth_mask_text none = codes "FF:FF:FF:FF:FF:FF"
eth_mask_text (some text) = text

-- An address under a mask, octet by octet.
unfoldable pub mask_octets : List ℕ → List ℕ → List ℕ
mask_octets (a ∷ addr) (k ∷ mask) = bit_and a k ∷ mask_octets addr mask
mask_octets addr mask = addr

module _ (system : System) where
  -- The port of a service or a number. The client passes `optarg` as the text, so the digit that is
  -- tested is the first one of the text.
  unfoldable pub port_value : List ℕ → Option ℕ
  port_value text = elim (system.getservbyname text) [
    | some port ↦ some port
    | none ↦ if is_digit (get_or text 0 0) then some (wrapped (2 ^ 16) (atoi text)) else none
  ]

  -- `*port` and `*mask`.
  unfoldable pub parse_port : List ℕ → ℕ → ℕ → Bool × ℕ × ℕ
  unfolding port_value mask_value split
  parse_port src port mask =
      let (front, back) = split src in
      let mask' = mask_behind back in
      elim (port_value front) [
        | none ↦ (false, port, mask')
        | some value ↦ (true, bit_and value mask', mask')
      ]

  -- A text without a number is refused, but not a blank one.
  unfoldable pub parse_vlan : List ℕ → ℕ → ℕ → Bool × ℕ × ℕ
  parse_vlan src vlan_tci vlan_tci_mask =
      if is_blank src then (true, vlan_tci, 0xFFFF) else elim (system.scan_short src) [
        | none ↦ (false, vlan_tci, 0xFFFF)
        | some (tci, rest) ↦ (true, tci, vlan_mask system.scan_short rest)
      ]

  unfoldable pub parse_eth_addr : List ℕ → List ℕ → List ℕ → Bool × List ℕ × List ℕ
  unfolding mask_octets split
  parse_eth_addr str addr mask =
      let (front, back) = split str in
      elim (system.ether_aton front) [
        | none ↦ (false, addr, mask)
        | some a ↦ elim (system.ether_aton (eth_mask_text back)) [
          | none ↦ (false, a, mask)
          | some k ↦ (true, mask_octets a k, k)
        ]
      ]

  unfoldable pub parse_ip_proto : List ℕ → ℕ → Bool × ℕ
  parse_ip_proto src ip_proto = elim (system.getprotobyname src) [
    | some proto ↦ (true, u8 proto)
    | none ↦
        if is_digit (get_or src 0 0) then (true, wrapped (2 ^ 8) (atoi src)) else (false, ip_proto)
  ]

-- The type of a protocol's name, or a number; a blank text leaves the type that was stored.
unfoldable pub eth_type_value : List ℕ → ℕ → Option ℕ
eth_type_value text old = elim (ethertype_by_name text) [
  | some e ↦ some e.value
  | none ↦
      if is_blank text
      then some old
      else elim (scan_int text) [ none ↦ none | some (n, _) ↦ some (wrapped (2 ^ 16) n) ]
]

unfoldable pub parse_eth_type : List ℕ → ℕ → ℕ → Bool × ℕ × ℕ
unfolding eth_type_value mask_value split
parse_eth_type src type mask =
    let (front, back) = split src in
    let mask' = mask_behind back in
    elim (eth_type_value front type) [
      | none ↦ (false, type, mask')
      | some value ↦ (true, bit_and value mask', mask')
    ]
