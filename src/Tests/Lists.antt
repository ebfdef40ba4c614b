-- ===== src/Tests/Lists.antt =====
-- The theorems on the parsing of addresses at concrete inputs.
use libcap_utils.Prelude.{◌-◌, ◌^◌, ◌≡◌, refl, [], ◌∷◌, ◌++◌, some, true, bit_and, swap32, arith}
use libcap_utils.Filter.Address.{Texts, slash, parse_inet_addr}
use libcap_utils.Filter.Address.Masks.{parse_inet_addr-cidr}

-- A system that knows the address "a" and the number "b".
abbrev letters : Texts
letters = record { aton = λ t. some 0x0100000a; atoi = λ t. 24 }

parse_inet_addr-cidr_example :
    let k = swap32 (2 ^ 32 - 2 ^ (32 - 24)) in
    parse_inet_addr letters ((97 ∷ []) ++ (slash ∷ 98 ∷ [])) 0 0 ≡ (true, bit_and 0x0100000a k, k)
parse_inet_addr-cidr_example =
    parse_inet_addr-cidr letters (97 ∷ []) (98 ∷ []) 0x0100000a 0 0 refl refl refl (omega arith)
