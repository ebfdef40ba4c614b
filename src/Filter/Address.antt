-- ===== src/Filter/Address.antt =====
-- `parse_inet_addr` of src/createfilter.c: an address with a mask, as it is given to `--ip.src` and
-- `--ip.dst`. A text is the list of its characters.
pub mod Masks
use libcap_utils.Prelude.{
  ℕ, zero, suc, ◌+◌, ◌/◌, ◌^◌, Bool, true, false, Option, none, some, List, [], ◌∷◌, bit_and,
  bit_or, ◌==◌, leb, ◌&&◌, ◌||◌, not, if◌then◌else◌, swap32,
}
use libcap_utils.Text.{has}
use libcap_utils.Filter.{Filter}
use libcap_utils.Filter.Setters.{select}
use libcap_utils.Filter.Offset

-- The system's `inet_aton`, which is none for a text that it refuses, and `atoi` as a uint32_t.
pub record Texts : Type 0 where
  pub aton : List ℕ → Option ℕ
  pub atoi : List ℕ → ℕ

abbrev pub slash : ℕ
slash = 47

abbrev pub dot : ℕ
dot = 46

-- The text in front of the first separator, and behind it if there is one.
unfoldable pub split : List ℕ → List ℕ × Option (List ℕ)
split [] = ([], none)
split (c ∷ cs) =
    let (front, back) = split cs in if c == slash then ([], some cs) else (c ∷ front, back)

-- "255.255.255.255"
abbrev pub mask_default : List ℕ
mask_default = 50 ∷ 53 ∷ 53 ∷ 46 ∷ 50 ∷ 53 ∷ 53 ∷ 46 ∷ 50 ∷ 53 ∷ 53 ∷ 46 ∷ 50 ∷ 53 ∷ 53 ∷ []

abbrev pub mask_text : Option (List ℕ) → List ℕ
mask_text none = mask_default
mask_text (some text) = text

-- `while ( bits-- )`
unfoldable pub cidr_loop : ℕ → ℕ → ℕ
cidr_loop zero mask = mask
cidr_loop (suc bits) mask = cidr_loop bits (bit_or (mask / 2) (2 ^ 31))

module _ (texts : Texts) where
  -- The mask from its text; a text without a dot is a number of bits, if that is at most 32.
  unfoldable pub parse_mask : List ℕ → Option ℕ
  unfolding cidr_loop
  parse_mask text =
      let bits = texts.atoi text in
      if not (has dot text) && leb bits 32
      then some (swap32 (cidr_loop bits 0))
      else texts.aton text

  -- What is stored to `*addr` and `*mask`, from what they held, and whether the text is accepted.
  unfoldable pub parse_inet_addr : List ℕ → ℕ → ℕ → Bool × ℕ × ℕ
  unfolding parse_mask split
  parse_inet_addr str addr mask =
      let (front, back) = split str in
      elim (texts.aton front) [
        | none ↦ (false, addr, mask)
        | some a ↦ elim (parse_mask (mask_text back)) [
          | none ↦ (false, a, mask)
          | some k ↦ (true, bit_and a k, k)
        ]
      ]

  -- The criterion is selected also where the text is refused.
  unfoldable pub filter_src_ip_aton : Filter → List ℕ → Filter
  unfolding parse_inet_addr
  filter_src_ip_aton f str =
      let (_, addr, mask) = parse_inet_addr str f.ip_src f.ip_src_mask in
      record f { index = select f.index Offset.ip_src; ip_src = addr; ip_src_mask = mask }

  unfoldable pub filter_dst_ip_aton : Filter → List ℕ → Filter
  unfolding parse_inet_addr
  filter_dst_ip_aton f str =
      let (_, addr, mask) = parse_inet_addr str f.ip_dst f.ip_dst_mask in
      record f { index = select f.index Offset.ip_dst; ip_dst = addr; ip_dst_mask = mask }
