-- ===== src/Tests/Markers.antt =====
-- The theorems on markers at concrete frames.
use libcap_utils.Prelude.{
  ℕ, zero, suc, ◌≡◌, refl, List, [], ◌∷◌, ◌++◌, replicate, some, none, Memory, memory_of, be16,
  ◌==◌, ◌&&◌, ◌||◌, if◌then◌else◌, arith,
}
use libcap_utils.Packet.Ipv4.{Tagged}
use libcap_utils.Marker.{int_be64toh, int_htobe64, Marker, is_marker, is_marker_udp}
use libcap_utils.Marker.Laws.{int_be64toh-htobe64, Encodes, is_marker_lem}
use libcap_utils.Tests.{vlan_tag, ipv4_type, ip_header}

-- The UDP header from the marker port to port 5000.
abbrev udp_header : List ℕ
udp_header = 8 ∷ 0x11 ∷ 0x13 ∷ 0x88 ∷ 0 ∷ 112 ∷ 0 ∷ 0 ∷ []

-- A marker whose fields are all different.
abbrev sent : Marker
sent = record {
  magic = 0x9f7a3c83;
  version = 1;
  flags = 2;
  reserved = 3;
  exp_id = 10;
  run_id = 11;
  key_id = 12;
  seq_num = 13;
  timestamp = 0x0102030405060708;
}

abbrev marker_bytes : List ℕ
marker_bytes =
    (0x9f ∷ 0x7a ∷ 0x3c ∷ 0x83 ∷ 1 ∷ 2 ∷ 0 ∷ 3 ∷ [])
    ++ (0 ∷ 0 ∷ 0 ∷ 10 ∷ 0 ∷ 0 ∷ 0 ∷ 11 ∷ 0 ∷ 0 ∷ 0 ∷ 12 ∷ 0 ∷ 0 ∷ 0 ∷ 13 ∷ [])
    ++ (1 ∷ 2 ∷ 3 ∷ 4 ∷ 5 ∷ 6 ∷ 7 ∷ 8 ∷ [])

abbrev marked : Memory
marked =
    memory_of
      (replicate 12 0 ++ vlan_tag ++ ipv4_type ++ ip_header 17 ++ udp_header ++ marker_bytes)

marked-Tagged : Tagged marked 1
unfolding be16
marked-Tagged zero b = refl
marked-Tagged (suc j) b = absurd (omega arith)

sent-Encodes : Encodes marked 46 sent
sent-Encodes = record {
  magic = ((refl, refl), (refl, refl));
  version = refl;
  flags = refl;
  reserved = (refl, refl);
  exp_id = ((refl, refl), (refl, refl));
  run_id = ((refl, refl), (refl, refl));
  key_id = ((refl, refl), (refl, refl));
  seq_num = ((refl, refl), (refl, refl));
  timestamp = (((refl, refl), (refl, refl)), ((refl, refl), (refl, refl)));
}

is_marker_lem_example :
    (is_marker 1 marked 5000
      ≡ some (
          if be16 marked 38 == 0x0811
            && (be16 marked 40 == 5000 || 5000 == 0)
            && sent.magic == 0x9f7a3c83
          then (be16 marked 40, some sent)
          else (0, none)))
    × (is_marker_udp marked 46 ≡ (if sent.magic == 0x9f7a3c83 then (1, some sent) else (0, none)))
unfolding be16
is_marker_lem_example =
    is_marker_lem 1 1 marked 5000 sent (omega arith) (omega arith) marked-Tagged refl refl
      sent-Encodes

int_be64toh-htobe64_example : int_be64toh (int_htobe64 0x0102030405060708) ≡ 0x0102030405060708
int_be64toh-htobe64_example = int_be64toh-htobe64 0x0102030405060708 (omega arith)
