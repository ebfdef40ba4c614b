-- ===== src/Protocol/DnsName/Bounds.antt =====
-- That `dns_name` of src/protocols/dns.c returns, and writes within its buffer.
use libcap_utils.Prelude.{
  ℕ, zero, suc, ◌+◌, ◌-◌, ◌*◌, ◌%◌, ◌^◌, ◌≤◌, ◌<◌, ◌≡◌, ◌≢◌, Memory, byte_at, List, [], ◌∷◌, ◌==◌,
  ◌||◌, leb, if◌then◌else◌, if_cases, min, sub64, All, arith, ◌⊎◌,
}
use libcap_utils.Protocol.DnsName.{
  Write, Out, strnlen, copied, taken, put_label, put_malformed, Position, position, null, endless,
  contains, refer, labels, dns_name_int, max_label_references, dns_name,
}

abbrev pub Within : ℕ → Write → Type 0
Within capacity w = w.at + w.bytes ≤ capacity

-- The writes so far are within the buffer, and unless the size is used up there are three bytes
-- behind it.
pub record HasRoom (capacity : ℕ) (o : Out) : Type 0 where
  pub written : All (Within capacity) o.writes
  pub size_fits : o.size < 2 ^ 64
  pub room : (o.size ≡ 0) ⊎ (o.dst + o.size + 3 ≤ capacity)

copied-Within :
    (capacity n : ℕ) (o : Out) → HasRoom capacity o → All (Within capacity) (copied n o).writes
unfolding copied
copied-Within capacity n o r = ground (arith, r.written, r.room)

put_label-HasRoom :
    (capacity : ℕ) (m : Memory) (src len : ℕ) (o : Out)
    → HasRoom capacity o
    → HasRoom capacity (put_label m src len o)
unfolding put_label copied taken
put_label-HasRoom capacity m src len o r =
    let n = strnlen m src (min o.size len) in
    record {
      written = copied-Within capacity n o r;
      size_fits = omega arith;
      room = ground (arith, r.room, r.size_fits);
    }

-- A walk that returned, with all its writes within the buffer.
unfoldable pub IsFine : ℕ → Position × Out → Type 0
IsFine capacity (pos, o) = (pos ≢ endless) × All (Within capacity) o.writes

position-IsFine :
    (capacity p : ℕ) (o : Out) → All (Within capacity) o.writes → IsFine capacity (position p, o)
unfolding IsFine
position-IsFine capacity p o a = ((λ e. absurd (ground arith)), a)

null-IsFine : (capacity : ℕ) (o : Out) → All (Within capacity) o.writes → IsFine capacity (null, o)
unfolding IsFine
null-IsFine capacity o a = ((λ e. absurd (ground arith)), a)

module _ (capacity : ℕ) (follow : ℕ → List ℕ → Out → Position × Out)
    (follow_fine : (offset : ℕ) (visited : List ℕ) (o : Out)
      → HasRoom capacity o
      → IsFine capacity (follow offset visited o)) where
  refer-IsFine :
      (slots : ℕ) (visited : List ℕ) (offset : ℕ) (o : Out)
      → HasRoom capacity o
      → IsFine capacity (refer follow slots visited offset o)
  unfolding put_malformed IsFine
  refer-IsFine slots visited offset o r =
      if_cases (IsFine capacity) (offset == 0 || contains offset visited || slots == 0)
        (λ _. null-IsFine capacity (put_malformed o) (copied-Within capacity (min o.size 11) o r))
        (λ _.
          null-IsFine capacity (follow offset (offset ∷ visited) o).1
            (follow_fine offset (offset ∷ visited) o r).1)

  labels-IsFine :
      (slots fuel : ℕ) (m : Memory) (end : ℕ) (visited : List ℕ) (len src : ℕ) (o : Out)
      → end - src < fuel
      → HasRoom capacity o
      → IsFine capacity (labels follow slots fuel m end visited len src o)
  unfolding labels IsFine
  labels-IsFine slots zero m end visited len src o h r = absurd (omega (arith, h))
  labels-IsFine slots (suc fuel) m end visited len src o h r =
      let offset = len % 64 * 256 + byte_at m src in
      let o' = put_label m src len o in
      let r' = put_label-HasRoom capacity m src len o r in
      let next = src + len in
      let P = IsFine capacity in
      if_cases P (leb 192 len)
        (λ _.
          position-IsFine capacity (src + 1) (refer follow slots visited offset o).1
            (refer-IsFine slots visited offset o r).1)
        (λ _.
          if_cases P (leb end next) (λ _. null-IsFine capacity o' r'.written)
            (λ inside.
              if_cases P (byte_at m next == 0)
                (λ _. position-IsFine capacity (next + 1) o' r'.written)
                (λ _.
                  labels-IsFine slots fuel m end visited (byte_at m next) (next + 1) o'
                    (ground (arith, h, inside)) r')))

dns_name_int-IsFine :
    (capacity slots : ℕ) (m : Memory) (end src : ℕ) (visited : List ℕ) (o : Out)
    → HasRoom capacity o
    → IsFine capacity (dns_name_int slots m end src visited o)
unfolding dns_name_int
dns_name_int-IsFine capacity zero m end src visited o r =
    if_cases (IsFine capacity) (leb end src) (λ _. null-IsFine capacity o r.written)
      (λ _.
        labels-IsFine capacity (λ _ _ o. (null, o)) (λ _ _ o r. null-IsFine capacity o r.written) 0
          (suc end) m end visited (byte_at m src) (src + 1) o (omega arith) r)
dns_name_int-IsFine capacity (suc slots) m end src visited o r =
    if_cases (IsFine capacity) (leb end src) (λ _. null-IsFine capacity o r.written)
      (λ _.
        labels-IsFine capacity (dns_name_int slots m end)
          (λ offset seen o r. dns_name_int-IsFine capacity slots m end offset seen o r) (suc slots)
          (suc end) m end visited (byte_at m src) (src + 1) o (omega arith) r)

-- On every packet, whatever its bytes and its references, `dns_name` returns, and with a buffer of at
-- least three bytes all that it writes, the dots of a cut label included, is within the buffer.
pub dns_name-IsFine :
    (size : ℕ) (m : Memory) (src end : ℕ)
    → 3 ≤ size
    → size < 2 ^ 64
    → IsFine size (dns_name size m src end)
unfolding dns_name
dns_name-IsFine size m src end h small =
    dns_name_int-IsFine size max_label_references m end src []
      (record { dst = 0; size = if size == 0 then 0 else sub64 size 3; writes = [] })
      (record {
        written = tt;
        size_fits = ground (arith, h, small);
        room = ground (arith, h, small);
      })
