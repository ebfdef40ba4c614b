-- ===== src/Filter/Setters/Laws.antt =====
-- A criterion that is set is tested, as it was set, and the others stay as they were.
use libcap_utils.Prelude.{
  ℕ, ◌^◌, ◌≡◌, ◌≢◌, inr, arith, sym, ◌∙◌, Bool, true, false, ◌==◌, ◌||◌, Memory, none, List, some,
  bit_and, bit_or, bit_or-pow_self, bit_or-pow_ne, bit_or-pow-lt,
}
use libcap_utils.Packet
use libcap_utils.Filter.{Filter, selected}
use libcap_utils.Filter.Offset
use libcap_utils.Filter.Core.{
  filter_src_port, filter_dst_port, filter_port, filter_ip_src, filter_ip_dst,
}
use libcap_utils.Filter.Core.Words.{bit, bit-selected}
use libcap_utils.Filter.Core.Decision.{IsWellFormed}
use libcap_utils.Filter.Setters.{
  select, filter_src_port_set, filter_dst_port_set, filter_tp_port_set, filter_src_ip_set,
  filter_dst_ip_set, filter_frame_num_set,
}

bit_injective : (a b : Bool) → bit a ≡ bit b → a ≡ b
bit_injective a b h = ground arith

pub selected-select_self : (index k : ℕ) → selected (select index k) k ≡ true
unfolding select
selected-select_self index k =
    bit_injective _ true (bit-selected (bit_or index (2 ^ k)) k ∙ bit_or-pow_self k index)

pub selected-select_ne : (index k j : ℕ) → k ≢ j → selected (select index k) j ≡ selected index j
unfolding select
selected-select_ne index k j h =
    bit_injective _ _ (
      bit-selected (bit_or index (2 ^ k)) j
      ∙ bit_or-pow_ne k j index h
      ∙ sym (bit-selected index j))

-- After its setter a port test depends on nothing that was set before: a port passes exactly if it
-- agrees with the given one in the bits of the mask, and `tp.port` passes if either port does.
port_tests-set :
    (f : Filter) (port mask src dst : ℕ)
    → (filter_src_port (filter_src_port_set f port mask) src
        ≡ (bit_and port mask == bit_and src mask))
      × (filter_dst_port (filter_dst_port_set f port mask) dst
          ≡ (bit_and port mask == bit_and dst mask))
      × (filter_port (filter_tp_port_set f port mask) src dst
          ≡ (bit_and port mask == bit_and src mask || bit_and port mask == bit_and dst mask))
unfolding filter_src_port filter_dst_port filter_port filter_src_port_set filter_dst_port_set
    filter_tp_port_set
port_tests-set f port mask src dst = (
  rw (selected-select_self f.index Offset.src_port),
  rw (selected-select_self f.index Offset.dst_port),
  rw (selected-select_self f.index Offset.port),
)

-- After its setter an address test passes exactly for a packet with an IPv4 header whose address
-- agrees with the given one in the bits of the mask.
ip_tests-set :
    (f : Filter) (ip mask : ℕ) (m : Memory) (header : ℕ)
    → (filter_ip_src (filter_src_ip_set f ip mask) m (some header)
        ≡ (bit_and (Packet.ip_src m header) mask == bit_and ip mask))
      × (filter_ip_dst (filter_dst_ip_set f ip mask) m (some header)
          ≡ (bit_and (Packet.ip_dst m header) mask == bit_and ip mask))
      × (filter_ip_src (filter_src_ip_set f ip mask) m none ≡ false)
      × (filter_ip_dst (filter_dst_ip_set f ip mask) m none ≡ false)
unfolding filter_ip_src filter_ip_dst filter_src_ip_set filter_dst_ip_set
ip_tests-set f ip mask m header = (
  rw (selected-select_self f.index Offset.ip_src),
  rw (selected-select_self f.index Offset.ip_dst),
  ground arith,
  ground arith,
)

-- Setting the frame ranges keeps a filter well-formed, and selects no other criterion.
filter_frame_num_set-IsWellFormed :
    (f : Filter) (str : List ℕ) (j : ℕ)
    → IsWellFormed f
    → j ≢ Offset.frame_num
    → let g = filter_frame_num_set f str in
      IsWellFormed g × (selected g.index j ≡ selected f.index j)
unfolding filter_frame_num_set select
filter_frame_num_set-IsWellFormed f str j w ne = (
  record {
    index_fits = bit_or-pow-lt 16 15 f.index w.index_fits (omega arith);
    ranges_selected = inr (selected-select_self f.index Offset.frame_num);
  },
  selected-select_ne f.index Offset.frame_num j (λ e. ne (sym e)),
)
