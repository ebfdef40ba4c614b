-- ===== src/Filter/Core/Decision.antt =====
-- What `filter_core` decides, against the criteria themselves.
use libcap_utils.Prelude.{
  ℕ, ◌<◌, ◌^◌, ◌≡◌, ◌⊎◌, inl, inr, refl, arith, Bool, true, Option, none, some, List, [], ◌∷◌,
  Memory, ◌==◌, ◌&&◌, ap, sym, ◌∙◌, ◌++◌, ◌+◌, ◌*◌, ◌≤◌, ◌≢◌, Bool-cases, if◌then◌else◌, ==_iff,
  ap₂,
}
use libcap_utils.Packet.{Search, found, absent, endless, find_ipv4_header}
use libcap_utils.Packet.{find_ether_vlan_header, h_proto, vlan_tci}
use libcap_utils.Filter.{Filter, CapHeader, Mode, all_of, any_of, unknown, selected}
use libcap_utils.Packet.{ethhdr_size, ethertype_ip, ethertype_vlan}
use libcap_utils.Packet.Ipv4.{type_at, Tagged, find_ipv4_header_lem}
use libcap_utils.Filter.Offset
use libcap_utils.Filter.Criteria
use libcap_utils.Filter.Criteria.{filter_frame_num, frame_num_range}
use libcap_utils.Filter.Core.{
  tests, decide_mode, filter_core_at, filter_core, find_ports, accumulate,
}
use libcap_utils.Filter.Core.Transport.{
  ports_at, find_ports-ports_at, find_ports-none, find_ether_vlan_header_lem,
}
use libcap_utils.Filter.Core.Words.{
  word, both, selections, every_selected, some_selected, accumulate-word, word-both_eq,
  word-both_pos, word-selections,
}

-- An index of the sixteen known bits, which selects the frame number where there are ranges.
pub record IsWellFormed (f : Filter) : Type 0 where
  pub index_fits : f.index < 2 ^ 16
  pub ranges_selected : (f.frame_num ≡ []) ⊎ (selected f.index Offset.frame_num ≡ true)

-- The criteria of the sixteen offsets, each on the part of the packet that it is about.
-- Given are the IPv4 header, the VLAN tag and the type, and the two ports.
abbrev pub criteria : Filter → Memory → CapHeader → Option ℕ → Bool × ℕ → ℕ × ℕ → List Bool
criteria f m head ip (vlan, proto) (src, dst) =
    Criteria.dst_port f dst
    ∷ Criteria.src_port f src
    ∷ Criteria.ip_dst f m ip
    ∷ Criteria.ip_src f m ip
    ∷ Criteria.ip_proto f m ip
    ∷ Criteria.eth_dst f m
    ∷ Criteria.eth_src f m
    ∷ Criteria.h_proto f proto
    ∷ Criteria.vlan_tci f vlan (vlan_tci m)
    ∷ Criteria.iface f head.nic
    ∷ Criteria.mampid f head.mampid
    ∷ Criteria.end_time f head.ts
    ∷ Criteria.start_time f head.ts
    ∷ Criteria.port f src dst
    ∷ Criteria.frame_dt f head.ts
    ∷ filter_frame_num f
    ∷ []

frame_num-selected :
    (f : Filter)
    → IsWellFormed f
    → filter_frame_num f ≡ (selected f.index Offset.frame_num && filter_frame_num f)
unfolding filter_frame_num
frame_num-selected f w = elim (w.ranges_selected) [ inl e ↦ rw e (ground arith) | inr s ↦ rw s ]

-- The criteria on what `filter_core` finds in a packet.
abbrev pub found_criteria : Filter → Memory → CapHeader → Option ℕ → List Bool
found_criteria f m head ip =
    criteria f m head ip (find_ether_vlan_header m (h_proto m)) (find_ports m ip)

tests-both :
    (f : Filter) (m : Memory) (head : CapHeader) (ip : Option ℕ)
    → IsWellFormed f
    → tests f m head ip ≡ both (selections 16 0 f.index) (found_criteria f m head ip)
unfolding tests
tests-both f m head ip w =
    ap (λ t. both (selections 15 0 f.index) (found_criteria f m head ip) ++ t ∷ [])
      (frame_num-selected f w)

-- What the mode makes of the criteria: all of the selected ones hold, or one of them does.
abbrev pub judgement : Mode → List Bool → List Bool → Option Bool
judgement all_of selected_bits holds = some (every_selected selected_bits holds)
judgement any_of selected_bits holds = some (some_selected selected_bits holds)
judgement unknown selected_bits holds = none

decide_mode-judgement :
    (mode : Mode) (f : Filter) (m : Memory) (head : CapHeader) (ip : Option ℕ)
    → IsWellFormed f
    → decide_mode mode f.index (accumulate 0 0 (tests f m head ip))
      ≡ judgement mode (selections 16 0 f.index) (found_criteria f m head ip)
unfolding decide_mode
decide_mode-judgement mode f m head ip w = rw (tests-both f m head ip w) (go mode)
  where
    sel : List Bool
    sel = selections 16 0 f.index

    holds : List Bool
    holds = found_criteria f m head ip

    at_end : accumulate 0 0 (both sel holds) ≡ word (both sel holds)
    at_end = accumulate-word 0 0 (both sel holds) (omega arith) ∙ omega arith

    go :
        (k : Mode) → decide_mode k f.index (accumulate 0 0 (both sel holds)) ≡ judgement k sel holds
    go all_of = rw at_end (
        ap (λ (n : ℕ). some (word (both sel holds) == n))
          (sym (word-selections f.index w.index_fits))
        ∙ ap some (word-both_eq sel holds tt))
    go any_of = rw at_end (ap some (word-both_pos sel holds tt))
    go unknown = refl

-- The bit arithmetic of `filter_core` decides by the criteria alone. For a well-formed filter, in
-- mode AND a packet matches exactly if every criterion that the index selects holds, in mode OR
-- exactly if one of them does, and in any other mode the code aborts.
pub filter_core_at-judgement :
    (f : Filter) (m : Memory) (head : CapHeader) (ip : Option ℕ)
    → IsWellFormed f
    → filter_core_at f m head ip
      ≡ judgement f.mode (selections 16 0 f.index) (found_criteria f m head ip)
unfolding filter_core_at
filter_core_at-judgement f m head ip w = decide_mode-judgement f.mode f m head ip w

-- The same on a tag and ports that are known.
filter_core_at-given :
    (f : Filter) (m : Memory) (head : CapHeader) (ip : Option ℕ) {tag : Bool × ℕ} {ports : ℕ × ℕ}
    → IsWellFormed f
    → find_ether_vlan_header m (h_proto m) ≡ tag
    → find_ports m ip ≡ ports
    → filter_core_at f m head ip
      ≡ judgement f.mode (selections 16 0 f.index) (criteria f m head ip tag ports)
filter_core_at-given f m head ip w tag ports =
    filter_core_at-judgement f m head ip w
    ∙ ap₂
        (λ (t : Bool × ℕ) (p : ℕ × ℕ).
          judgement f.mode (selections 16 0 f.index) (criteria f m head ip t p))
        tag ports

-- The IPv4 header that the search ends at behind `n` tags, or null.
abbrev pub header_at : Memory → ℕ → Option ℕ
header_at m n = if type_at m n == ethertype_ip then some (ethhdr_size + 4 * n) else none

-- For a well-formed filter and a frame with at most one VLAN tag, `filter_core` returns the judgement
-- of its criteria on the frame: on the IPv4 header if the type is IPv4, on the tag and the type
-- behind it, and on the ports that follow that header, 0 without TCP and UDP over IPv4.
pub filter_core-judgement :
    (fuel n : ℕ) (f : Filter) (m : Memory) (head : CapHeader)
    → IsWellFormed f
    → n ≤ fuel
    → n ≤ 1
    → Tagged m n
    → type_at m n ≢ ethertype_vlan
    → filter_core fuel f m head
      ≡ judgement f.mode
          (selections 16 0 f.index)
          (criteria f m head (header_at m n) (n == 1, type_at m n) (ports_at m (header_at m n)))
unfolding filter_core
filter_core-judgement fuel n f m head w h one tags stop =
    let vlan = find_ether_vlan_header_lem n m one tags stop in
    rw (find_ipv4_header_lem fuel n m h tags stop, filter_core)
      (elim (Bool-cases (type_at m n == ethertype_ip)) [
        | inl e ↦
            rw (e, filter_core)
              (filter_core_at-given f m head (some (ethhdr_size + 4 * n)) w vlan
                (find_ports-ports_at n m one tags ((==_iff _ _).0 e)))
        | inr e ↦
            rw (e, filter_core) (filter_core_at-given f m head none w vlan (find_ports-none m))
      ])

-- Where the search ends, `filter_core` decides for some header or for none.
pub filter_core_ends :
    (fuel : ℕ) (f : Filter) (m : Memory) (head : CapHeader)
    → find_ipv4_header fuel m ≢ endless
    → (ip : Option ℕ) × (filter_core fuel f m head ≡ filter_core_at f m head ip)
unfolding filter_core
filter_core_ends fuel f m head ends = go (find_ipv4_header fuel m) refl
  where
    go :
        (s : Search)
        → find_ipv4_header fuel m ≡ s
        → (ip : Option ℕ) × (filter_core fuel f m head ≡ filter_core_at f m head ip)
    go (found ip) e = (some ip, rw (e, filter_core))
    go absent e = (none, rw (e, filter_core))
    go endless e = absurd (ends e)
