-- ===== src/Connection/Calls.antt =====
-- `connection_id` of src/packet/connection_id.c against the numbers of connections.
use libcap_utils.Prelude.{
  ℕ, ◌+◌, ◌^◌, ◌<◌, ◌≤◌, ◌≡◌, refl, Bool-cases, true, false, ◌||◌, Option-cases, none, some, List,
  [], ◌∷◌, inl, inr, length, length-append, ◌==◌, ==_iff, arith, ◌∙◌, Memory,
}
use libcap_utils.Packet.{
  Search, found, absent, endless, find_ipv4_header, ip_p, ethhdr_size, ipproto_tcp, ipproto_udp,
}
use libcap_utils.Packet.Transport.{find_ipproto_header_found}
use libcap_utils.Connection.{Entry, Bucket}
use libcap_utils.Connection.Keys.{ipv4_bucket_select, seq_of}
use libcap_utils.Connection.Table.{Table, initialize, update, connection_id, connection_id_search}
use libcap_utils.Connection.Opening.{IsPaired, create_lem}
use libcap_utils.Connection.Search.{starts, connection_id_search-known, connection_id_search-new}
use libcap_utils.Connection.Numbers.{
  reverse, number, key, endpoints, assign, bucket_of, Represents, update-numbers,
  ipv4_connection_id-transport, ipv4_connection_id-none,
}

-- The search for the packet's header ends, behind at most one VLAN tag if it finds a header, and if
-- the packet opens a TCP connection, none of its endpoints was seen.
unfoldable pub Expected : List Entry → Memory → Search → Type 0
Expected fs m endless = ⊥
Expected fs m absent = Unit {0}
Expected fs m (found ip) =
    (ip ≤ ethhdr_size + 4) × (starts m (some ip) ≡ true → number fs (endpoints m ip) ≡ none)

initialize-initialized : (t : Table) → (initialize t).initialized ≡ true
unfolding initialize
initialize-initialized t = elim (Bool-cases t.initialized) [
  | inl ready ↦ rw ready refl
  | inr fresh ↦ rw fresh refl
]

initialize-ready : (t : Table) → t.initialized ≡ true → initialize t ≡ t
unfolding initialize
initialize-ready t h = rw h refl

update-same : (buckets : ℕ → Bucket) (i j : ℕ) → update buckets i (buckets i) j ≡ buckets j
update-same buckets i j = elim (Bool-cases (j == i)) [
  | inl same ↦ rw (same, (==_iff _ _).0 same) refl
  | inr other ↦ rw other refl
]

update-IsPaired :
    (buckets : ℕ → Bucket) (i j : ℕ) (b : Bucket)
    → ((k : ℕ) → IsPaired (buckets k))
    → IsPaired b
    → IsPaired (update buckets i b j)
update-IsPaired buckets i j b all one = elim (Bool-cases (j == i)) [
  | inl same ↦ rw same one
  | inr other ↦ rw other (all j)
]

-- The step for a header that the search found, from a table with its lists initialised.
module _ (t : Table) (fs : List Entry) (m : Memory) (ip : ℕ) (rep : Represents fs t) where
  abbrev e : Entry
  e = endpoints m ip

  abbrev after : ℕ × Bucket × ℕ → Table
  after answer = record t { buckets = update t.buckets (bucket_of e) answer.1; counter = answer.0 }

  -- The counter, the bucket and the id of the search, and what they make of the table.
  IsAnswer : ℕ × Bucket × ℕ → Type 0
  IsAnswer answer =
      (connection_id_search t.counter (t.buckets (bucket_of e)) m (some ip) (e, reverse e)
        ≡ some answer)
      × (answer.2 ≡ (assign fs (some e)).1)
      × Represents (assign fs (some e)).0 (after answer)

  seen_before :
      (n : ℕ)
      → number fs e ≡ some n
      → starts m (some ip) ≡ false
      → IsAnswer (t.counter, t.buckets (bucket_of e), n)
  unfolding IsAnswer assign
  seen_before n seen quiet = (
    connection_id_search-known t.counter (t.buckets (bucket_of e)) m (some ip) e (reverse e) n
        (rep.numbers e ∙ seen) quiet,
    rw (assign, seen) refl,
    rw (assign, seen)
        (record {
          counts = rep.counts;
          paired = λ i. rw (update-same t.buckets (bucket_of e) i) (rep.paired i);
          numbers = λ k. rw (update-same t.buckets (bucket_of e) (bucket_of k)) (rep.numbers k);
        }),
  )

  seen_first :
      number fs e ≡ none
      → length fs + 1 < 2 ^ 31
      → (b : Bucket) × IsAnswer (t.counter + 1, b, t.counter + 1)
  unfolding IsAnswer assign
  seen_first unseen bound =
      let b = t.buckets (bucket_of e) in
      let counts = rep.counts in
      let (b', made, paired, ids) =
        create_lem t.counter b (seq_of m (some ip)) e (reverse e) (rep.paired (bucket_of e))
          (omega (arith, counts, bound)) in
      let last = length-append fs (e ∷ []) in
      let next : t.counter + 1 ≡ length fs + 1 = omega (arith, counts) in
      (
        b',
        (
          connection_id_search-new t.counter b m (some ip) e (reverse e) (rep.numbers e ∙ unseen)
              ∙ made,
          rw (assign, unseen) next,
          rw (assign, unseen)
              (record {
                counts = omega (arith, next, last);
                paired = λ i. update-IsPaired t.buckets (bucket_of e) i b' rep.paired paired;
                numbers = λ k. update-numbers t fs e k b' rep (rw next at ids);
              }),
        ),
      )

select-bucket : (m : Memory) (ip : ℕ) → ipv4_bucket_select m ip ≡ bucket_of (endpoints m ip)
unfolding ipv4_bucket_select bucket_of endpoints
select-bucket m ip = refl

-- The search has an answer, whether the connection was seen or not.
answers :
    (t : Table) (fs : List Entry) (m : Memory) (ip : ℕ) (rep : Represents fs t)
    → (starts m (some ip) ≡ true → number fs (endpoints m ip) ≡ none)
    → length fs + 1 < 2 ^ 31
    → (answer : ℕ × Bucket × ℕ) × IsAnswer t fs m ip rep answer
answers t fs m ip rep expected bound = elim (Option-cases (number fs (endpoints m ip))) [
  | inl unseen ↦ let (b, all) = seen_first t fs m ip rep unseen bound in (_, all)
  | inr (n, seen) ↦ elim (Bool-cases (starts m (some ip))) [
    | inl syn ↦ absurd (ground (arith, expected syn, seen))
    | inr quiet ↦ (_, seen_before t fs m ip rep n seen quiet)
  ]
]

-- A call returns, with the number of the packet's connection, and the table has the connections seen.
pub connection_id-assign :
    (fuel : ℕ) (m : Memory) (t : Table) (fs : List Entry)
    → Represents fs (initialize t)
    → Expected fs m (find_ipv4_header fuel m)
    → length fs + 1 < 2 ^ 31
    → (t' : Table) × (connection_id fuel m t
        ≡ some (t', (assign fs (key m (find_ipv4_header fuel m))).1))
      × Represents (assign fs (key m (find_ipv4_header fuel m))).0 (initialize t')
unfolding connection_id key Expected IsAnswer assign
connection_id-assign fuel m t fs rep expected bound = go (find_ipv4_header fuel m) refl expected
  where
    ready :
        (t' : Table) (gs : List Entry)
        → t'.initialized ≡ true
        → Represents gs t'
        → Represents gs (initialize t')
    ready t' gs h r = rw (initialize-ready t' h) r

    init : (initialize t).initialized ≡ true
    init = initialize-initialized t

    go :
        (s : Search)
        → find_ipv4_header fuel m ≡ s
        → Expected fs m s
        → (t' : Table) × (connection_id fuel m t ≡ some (t', (assign fs (key m s)).1))
          × Represents (assign fs (key m s)).0 (initialize t')
    go endless at x = absurd x
    go absent at x = (initialize t, rw (connection_id, at) refl, ready (initialize t) fs init rep)
    go (found ip) at x = elim (Bool-cases (ip_p m ip == ipproto_tcp || ip_p m ip == ipproto_udp)) [
      | inr other ↦ (
        initialize t,
        rw (connection_id, at, ipv4_connection_id-none m ip other, key, other) refl,
        rw (key, other) (ready (initialize t) fs init rep),
      )
      | inl transport ↦
          let behind = find_ipproto_header_found fuel ip m at x.0 in
          let (answer, (searched, id, represents)) = answers (initialize t) fs m ip rep x.1 bound in
          (
            after (initialize t) fs m ip rep answer,
            rw
                (
                  connection_id,
                  at,
                  ipv4_connection_id-transport m ip behind transport,
                  select-bucket m ip,
                  searched,
                  key,
                  transport,
                  id,
                )
                refl,
            rw (key, transport) (ready (after (initialize t) fs m ip rep answer) _ init represents),
          )
    ]
