-- ===== src/Filter/Criteria.antt =====
-- The criterion that each test of src/filter.c applies when its bit of the index is set, and the test
-- of the frame number.
use libcap_utils.Prelude.{
  ℕ, zero, suc, ◌+◌, Bool, true, false, Option, none, some, List, [], ◌∷◌, ◌&&◌, ◌||◌, not, bit_and,
  ◌==◌, if◌then◌else◌, Memory, byte_at,
}
use libcap_utils.Prelude.Int.{pos, ltb_ℤ}
use libcap_utils.Time.{Picotime, Comparison, before, after, timecmp, timepico_sub}
use libcap_utils.Packet
use libcap_utils.Packet.{ip_p}
use libcap_utils.Filter.{Filter, Range}

-- Whether `timecmp` returns at most 0, and more than 0.
abbrev pub not_after : Comparison → Bool
not_after after = false
not_after _ = true

abbrev pub is_before : Comparison → Bool
is_before before = true
is_before _ = false

-- `matchEth`: the loop over the octets, with the early return.
pub match_eth : List ℕ → List ℕ → List ℕ → Bool
match_eth (d ∷ desired) (k ∷ mask) (n ∷ net) =
    let rest = match_eth desired mask net in if bit_and n k == d then rest else false
match_eth _ _ _ = true

-- The `n` octets from an address.
pub octets : Memory → ℕ → ℕ → List ℕ
octets m at zero = []
octets m at (suc n) = byte_at m at ∷ octets m (at + 1) n

-- `strncmp(a, b, n) == 0` for C strings.
unfoldable pub strncmp_eq : ℕ → List ℕ → List ℕ → Bool
strncmp_eq zero a b = true
strncmp_eq (suc n) [] [] = true
strncmp_eq (suc n) (x ∷ a) (y ∷ b) = let rest = strncmp_eq n a b in if x == y then rest else false
strncmp_eq (suc n) _ _ = false

starts_with : List ℕ → List ℕ → Bool
starts_with [] s = true
starts_with (x ∷ p) (y ∷ s) = let rest = starts_with p s in if x == y then rest else false
starts_with (x ∷ p) [] = false

-- `strstr(s, p) != NULL`
pub strstr : List ℕ → List ℕ → Bool
unfolding starts_with
strstr [] p = starts_with p []
strstr (y ∷ s) p = starts_with p (y ∷ s) || strstr s p

unfoldable pub iface : Filter → List ℕ → Bool
unfolding strstr
iface f nic = strstr nic f.iface

-- `vlan` says whether there is a tag, and `tci` is its field.
unfoldable pub vlan_tci : Filter → Bool → ℕ → Bool
vlan_tci f vlan tci = vlan && bit_and tci f.vlan_tci_mask == f.vlan_tci

unfoldable pub h_proto : Filter → ℕ → Bool
h_proto f proto = bit_and proto f.eth_type_mask == f.eth_type

unfoldable pub eth_src : Filter → Memory → Bool
unfolding match_eth octets
eth_src f m = match_eth f.eth_src f.eth_src_mask (octets m 6 6)

unfoldable pub eth_dst : Filter → Memory → Bool
unfolding match_eth octets
eth_dst f m = match_eth f.eth_dst f.eth_dst_mask (octets m 0 6)

unfoldable pub ip_proto : Filter → Memory → Option ℕ → Bool
ip_proto f m none = false
ip_proto f m (some ip) = f.ip_proto == ip_p m ip

unfoldable pub ip_src : Filter → Memory → Option ℕ → Bool
ip_src f m none = false
ip_src f m (some ip) = bit_and (Packet.ip_src m ip) f.ip_src_mask == f.ip_src

unfoldable pub ip_dst : Filter → Memory → Option ℕ → Bool
ip_dst f m none = false
ip_dst f m (some ip) = bit_and (Packet.ip_dst m ip) f.ip_dst_mask == f.ip_dst

unfoldable pub src_port : Filter → ℕ → Bool
src_port f port = f.src_port == bit_and port f.src_port_mask

unfoldable pub dst_port : Filter → ℕ → Bool
dst_port f port = f.dst_port == bit_and port f.dst_port_mask

unfoldable pub port : Filter → ℕ → ℕ → Bool
port f src dst = f.port == bit_and src f.port_mask || f.port == bit_and dst f.port_mask

unfoldable pub mampid : Filter → List ℕ → Bool
unfolding strncmp_eq
mampid f id = strncmp_eq 8 f.mampid id

unfoldable pub start_time : Filter → Picotime → Bool
start_time f t = not_after (timecmp f.starttime t)

unfoldable pub end_time : Filter → Picotime → Bool
end_time f t = not (not_after (timecmp f.endtime t))

-- Packets out of order are assumed to match.
unfoldable pub frame_dt : Filter → Picotime → Bool
frame_dt f t =
    let iat = timepico_sub t f.frame_last_ts in
    is_before (timecmp t f.frame_last_ts) || not_after (timecmp iat f.frame_max_dt)

-- `filter_frame_num` looks at the first range, and at no bit of the index.
unfoldable pub frame_num_range : List Range → ℕ → Bool
frame_num_range [] counter = false
frame_num_range (r ∷ rest) counter =
    if ltb_ℤ (pos counter) r.lower
    then false
    else if ltb_ℤ (pos 0) r.upper && ltb_ℤ r.upper (pos counter)
    then false
    else true

unfoldable pub filter_frame_num : Filter → Bool
unfolding frame_num_range
filter_frame_num f = frame_num_range f.frame_num f.frame_counter
