-- ===== src/Packet/Ethertype.antt =====
-- The table of Ethernet protocols in src/utils.c.
use libcap_utils.Prelude.{
  ℕ, ◌≡◌, Bool-cases, inl, inr, Option, none, some, List, [], ◌∷◌, All, ◌==◌, if◌then◌else◌, arith,
}
use libcap_utils.Text.{codes, strcasecmp_eq}

-- `struct ethertype`
pub record Ethertype : Type 0 where
  pub name : List ℕ
  pub value : ℕ

abbrev entry : List ℕ → ℕ → Ethertype
entry name value = record { name = name; value = value }

abbrev pub ethertypes : List Ethertype
ethertypes =
    entry (codes "LOOP") 96
    ∷ entry (codes "STP") 38
    ∷ entry (codes "CDPVTP") 366
    ∷ entry (codes "PUP") 512
    ∷ entry (codes "PUPAT") 513
    ∷ entry (codes "SPRITE") 1280
    ∷ entry (codes "IPv4") 2048
    ∷ entry (codes "IP") 2048
    ∷ entry (codes "X25") 2053
    ∷ entry (codes "ARP") 2054
    ∷ entry (codes "BPQ") 2303
    ∷ entry (codes "IEEEPUP") 2560
    ∷ entry (codes "IEEEPUPAT") 2561
    ∷ entry (codes "DEC") 24576
    ∷ entry (codes "DNA_DL") 24577
    ∷ entry (codes "DNA_RC") 24578
    ∷ entry (codes "DNA_RT") 24579
    ∷ entry (codes "LAT") 24580
    ∷ entry (codes "DIAG") 24581
    ∷ entry (codes "CUST") 24582
    ∷ entry (codes "SCA") 24583
    ∷ entry (codes "TEB") 25944
    ∷ entry (codes "MP") 32784
    ∷ entry (codes "RARP") 32821
    ∷ entry (codes "ATALK") 32923
    ∷ entry (codes "AARP") 33011
    ∷ entry (codes "VLAN") 33024
    ∷ entry (codes "8021Q") 33024
    ∷ entry (codes "IPX") 33079
    ∷ entry (codes "IPv6") 34525
    ∷ entry (codes "PAUSE") 34824
    ∷ entry (codes "SLOW") 34825
    ∷ entry (codes "WCCP") 34878
    ∷ entry (codes "PPP_DISC") 34915
    ∷ entry (codes "PPP_SES") 34916
    ∷ entry (codes "MPLS_UC") 34887
    ∷ entry (codes "MPLS_MC") 34888
    ∷ entry (codes "ATMMPOA") 34892
    ∷ entry (codes "LINK_CTL") 34924
    ∷ entry (codes "ATMFATE") 34948
    ∷ entry (codes "PAE") 34958
    ∷ entry (codes "AOE") 34978
    ∷ entry (codes "TIPC") 35018
    ∷ entry (codes "1588") 35063
    ∷ entry (codes "FCOE") 35078
    ∷ entry (codes "FIP") 35092
    ∷ entry (codes "LOOPBACK") 36864
    ∷ entry (codes "EDSA") 56026
    ∷ []

unfoldable pub by_name : List ℕ → List Ethertype → Option Ethertype
by_name name [] = none
by_name name (e ∷ table) =
    let rest = by_name name table in if strcasecmp_eq name e.name then some e else rest

unfoldable pub ethertype_by_name : List ℕ → Option Ethertype
unfolding by_name
ethertype_by_name name = by_name name ethertypes

unfoldable pub by_number : ℕ → List Ethertype → Option Ethertype
by_number number [] = none
by_number number (e ∷ table) =
    let rest = by_number number table in if number == e.value then some e else rest

unfoldable pub ethertype_by_number : ℕ → Option Ethertype
unfolding by_number
ethertype_by_number number = by_number number ethertypes

-- Every entry of the table is found by its own name.
abbrev NamesItself : Ethertype → Type 0
NamesItself e = ethertype_by_name e.name ≡ some e

names_are_distinct : All NamesItself ethertypes
unfolding ethertype_by_name strcasecmp_eq
names_are_distinct = ground arith

by_number_entry :
    (number : ℕ) (table : List Ethertype) (e : Ethertype)
    → All NamesItself table
    → by_number number table ≡ some e
    → (e.value ≡ number) × NamesItself e
unfolding by_number
by_number_entry number [] e h found = absurd (ground (arith, found))
by_number_entry number (d ∷ table) e h found = elim (Bool-cases (number == d.value)) [
  | inl here ↦
      let same : d ≡ e = ground (arith, rw here at found) in
      (rw (← same) (ground (arith, here)), rw (← same) (h.0))
  | inr later ↦ by_number_entry number table e h.1 (rw later at found)
]

-- The protocol that is found for a number has that number, and its name finds it.
pub ethertype_by_name-number :
    (number : ℕ) (e : Ethertype)
    → ethertype_by_number number ≡ some e
    → (e.value ≡ number) × (ethertype_by_name e.name ≡ some e)
unfolding ethertype_by_number
ethertype_by_name-number number e found =
    by_number_entry number ethertypes e names_are_distinct found
