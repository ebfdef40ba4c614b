-- ===== src/Connection/Runs.antt =====
-- A sequence of calls of `connection_id` of src/packet/connection_id.c, from the first one on.
use libcap_utils.Prelude.{ℕ, ◌≡◌, false, Option, some, List, [], ◌∷◌, ◌>>=◌, get_elem?, Memory}
use libcap_utils.Packet.{find_ipv4_header}
use libcap_utils.Connection.{Entry}
use libcap_utils.Connection.Table.{Table, connection_id}
use libcap_utils.Connection.Numbers.{number, key, assign}
use libcap_utils.Connection.Calls.{Expected}

-- The ids of a trace of packets.
unfoldable pub calls : ℕ → Table → List Memory → Option (List ℕ)
unfolding connection_id
calls fuel t [] = some []
calls fuel t (m ∷ ms) = do
  answer ← connection_id fuel m t
  ids ← calls fuel answer.0 ms
  some (answer.1 ∷ ids)

abbrev pub packet_key : ℕ → Memory → Option Entry
packet_key fuel m = key m (find_ipv4_header fuel m)

-- The statics before the first call.
pub record IsFresh (t : Table) : Type 0 where
  pub not_initialized : t.initialized ≡ false
  pub no_count : t.counter ≡ 0

-- The search for a header ends for each packet, behind at most one VLAN tag, and a packet that opens a TCP connection is the first
-- one between its endpoints. The connections in front are given.
unfoldable pub IsOrderly : ℕ → List Entry → List Memory → Type 0
IsOrderly fuel fs [] = Unit {0}
IsOrderly fuel fs (m ∷ ms) =
    Expected fs m (find_ipv4_header fuel m) × IsOrderly fuel (assign fs (packet_key fuel m)).0 ms

-- The number of each packet is that of its connection in the list, at the end.
IsNumbered : List Entry → List (Option Entry) → List ℕ → Type 0
IsNumbered fs keys ids =
    (i : ℕ) (e : Entry)
    → get_elem? keys i ≡ some (some e)
    → (n : ℕ) × (get_elem? ids i ≡ some n) × (number fs e ≡ some n)
