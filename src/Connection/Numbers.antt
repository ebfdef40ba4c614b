-- ===== src/Connection/Numbers.antt =====
-- What src/packet/connection_id.c promises: the connections are numbered in the order in which they are
-- first seen, and a connection is a pair of endpoints in either order.
use libcap_utils.Prelude.{
  ℕ, ◌+◌, ◌%◌, ◌≡◌, refl, ap, ap₂, Bool, Bool-cases, true, false, ◌||◌, Option, none, some, List,
  [], ◌∷◌, ◌++◌, inl, inr, length, ◌==◌, ==_iff, if◌then◌else◌, arith, sym, ◌∙◌, Memory, be16,
  byte_at, ◌*◌, bit_xor, bit_xor_comm,
}
use libcap_utils.SimpleList.Laws.{or_else}
use libcap_utils.Packet.{
  Search, found, absent, endless, ip_src, ip_dst, ip_p, ipproto_tcp, ipproto_udp,
  find_ipproto_header, find_tcp_header, find_udp_header,
}
use libcap_utils.Connection.{Entry, Bucket, protocol_ipv4}
use libcap_utils.Connection.Keys.{bucket_count, connection_id_cmp, ipv4_connection_id}
use libcap_utils.Connection.Table.{Table, update}
use libcap_utils.Connection.Slots.{id_in}
use libcap_utils.Connection.Opening.{IsPaired, or_id}

-- The other direction.
abbrev pub reverse : Entry → Entry
reverse e = record e { src = e.dst; dst = e.src; sport = e.dport; dport = e.sport }

abbrev pub joins : Entry → Entry → Bool
joins f e = connection_id_cmp f e || connection_id_cmp (reverse f) e

-- The connections seen, and the number of the one that a key belongs to.
unfoldable pub number_from : ℕ → List Entry → Entry → Option ℕ
unfolding connection_id_cmp
number_from n [] e = none
number_from n (f ∷ fs) e = let rest = number_from (n + 1) fs e in if joins f e then some n else rest

abbrev pub number : List Entry → Entry → Option ℕ
number fs e = number_from 1 fs e

-- The endpoints of a packet, by the IPv4 header at an offset: the ports are the first two 16-bit words
-- behind that header, whose length is counted in words of four bytes.
unfoldable pub endpoints : Memory → ℕ → Entry
endpoints m ip =
    let t = ip + byte_at m ip % 16 * 4 in
    record {
      protocol = protocol_ipv4;
      finished = 0;
      src = ip_src m ip;
      dst = ip_dst m ip;
      sport = be16 m t;
      dport = be16 m (t + 2);
    }

-- The key of a packet with TCP or UDP over IPv4.
unfoldable pub key : Memory → Search → Option Entry
unfolding endpoints
key m (found ip) =
    if ip_p m ip == ipproto_tcp || ip_p m ip == ipproto_udp then some (endpoints m ip) else none
key m absent = none
key m endless = none

-- The connections behind a packet, and the packet's number: that of its connection, which is the next
-- one if it is new, and 0 without a connection.
unfoldable pub assign : List Entry → Option Entry → List Entry × ℕ
unfolding number_from
assign fs none = (fs, 0)
assign fs (some e) = elim (number fs e) [
  | some n ↦ (fs, n)
  | none ↦ (fs ++ (e ∷ []), length fs + 1)
]

pub number_from-append :
    (n : ℕ) (fs : List Entry) (f e : Entry)
    → number_from n (fs ++ (f ∷ [])) e
      ≡ or_else (number_from n fs e) (if joins f e then some (n + length fs) else none)
unfolding number_from
number_from-append n [] f e = ground arith
number_from-append n (g ∷ fs) f e = ground (arith, number_from-append (n + 1) fs f e)

unfoldable pub bucket_of : Entry → ℕ
bucket_of e = bit_xor e.src e.dst % bucket_count

-- A table that has so many connections in it.
pub record Represents (fs : List Entry) (t : Table) : Type 0 where
  pub counts : t.counter ≡ length fs
  pub paired : (i : ℕ) → IsPaired (t.buckets i)
  pub numbers : (e : Entry) → id_in (t.buckets (bucket_of e)).list.slots e ≡ number fs e

-- Keys that are the same, or of two directions, are in the same bucket.
bucket_of-reverse : (e : Entry) → bucket_of (reverse e) ≡ bucket_of e
unfolding bucket_of
bucket_of-reverse e = ap (λ (w : ℕ). w % bucket_count) (bit_xor_comm e.dst e.src)

bucket_of-cmp : (f e : Entry) → connection_id_cmp f e ≡ true → bucket_of f ≡ bucket_of e
unfolding bucket_of connection_id_cmp
bucket_of-cmp f e h =
    let src : f.src ≡ e.src = ground (arith, h) in
    let dst : f.dst ≡ e.dst = ground (arith, h) in
    ap₂ (λ (a b : ℕ). bit_xor a b % bucket_count) src dst

bucket_of-joins : (f e : Entry) → joins f e ≡ true → bucket_of f ≡ bucket_of e
bucket_of-joins f e h = elim (Bool-cases (connection_id_cmp f e)) [
  | inl same ↦ bucket_of-cmp f e same
  | inr other ↦ sym (bucket_of-reverse f) ∙ bucket_of-cmp (reverse f) e (ground (arith, h, other))
]

-- Where the code looks behind the IPv4 header, it finds the key and its reverse.
pub ipv4_connection_id-transport :
    (m : Memory) (ip : ℕ)
    → find_ipproto_header m ip ≡ ip + byte_at m ip % 16 * 4
    → (ip_p m ip == ipproto_tcp || ip_p m ip == ipproto_udp) ≡ true
    → ipv4_connection_id m ip ≡ some (endpoints m ip, reverse (endpoints m ip))
unfolding ipv4_connection_id endpoints
ipv4_connection_id-transport m ip behind h = elim (Bool-cases (ip_p m ip == ipproto_tcp)) [
  | inl tcp ↦ rw (ipv4_connection_id, find_tcp_header, tcp, behind) refl
  | inr other ↦
      let udp : (ip_p m ip == ipproto_udp) ≡ true = ground (arith, h, other) in
      rw (ipv4_connection_id, find_tcp_header, other, find_udp_header, udp, behind) refl
]

pub ipv4_connection_id-none :
    (m : Memory) (ip : ℕ)
    → (ip_p m ip == ipproto_tcp || ip_p m ip == ipproto_udp) ≡ false
    → ipv4_connection_id m ip ≡ none
unfolding ipv4_connection_id
ipv4_connection_id-none m ip h = ground (arith, h)

or_else-none : (o : Option ℕ) → or_else o none ≡ o
or_else-none none = refl
or_else-none (some n) = refl

or_else-either :
    (o : Option ℕ) (a b : Bool) (n : ℕ)
    → or_else o (if a || b then some n else none)
      ≡ or_else (or_else o (if a then some n else none)) (if b then some n else none)
or_else-either none true b n = refl
or_else-either none false b n = refl
or_else-either (some k) a b n = refl

-- The connections behind a packet of a bucket that has none of its key: those that the code puts.
number-append :
    (fs : List Entry) (f e : Entry)
    → number (fs ++ (f ∷ [])) e
      ≡ or_id (or_id (number fs e) f (length fs + 1) e) (reverse f) (length fs + 1) e
number-append fs f e =
    let next : 1 + length fs ≡ length fs + 1 = omega arith in
    rw next at (number_from-append 1 fs f e)
    ∙ or_else-either (number fs e) (connection_id_cmp f e) (connection_id_cmp (reverse f) e) _

-- A search in the other buckets finds what it found before.
pub update-numbers :
    (t : Table) (fs : List Entry) (f e : Entry) (b : Bucket)
    → Represents fs t
    → ((e : Entry)
        → id_in b.list.slots e
          ≡ or_id
              (or_id (id_in (t.buckets (bucket_of f)).list.slots e) f (length fs + 1) e)
              (reverse f)
              (length fs + 1)
              e)
    → id_in (update t.buckets (bucket_of f) b (bucket_of e)).list.slots e
      ≡ number (fs ++ (f ∷ [])) e
update-numbers t fs f e b rep ids = elim (Bool-cases (bucket_of e == bucket_of f)) [
  | inl same ↦
      let here : bucket_of e ≡ bucket_of f = (==_iff _ _).0 same in
      let before = rw here at (rep.numbers e) in
      rw same (ids e ∙ rw before (sym (number-append fs f e)))
  | inr other ↦
      let not_joined : joins f e ≡ false = elim (Bool-cases (joins f e)) [
        | inl joined ↦ absurd (ground (arith, other, bucket_of-joins f e joined))
        | inr apart ↦ apart
      ] in
      rw (other, number_from-append 1 fs f e, not_joined)
        (rep.numbers e ∙ sym (or_else-none (number fs e)))
]
