-- ===== src/Protocol/DnsName.antt =====
-- `dns_name` of src/protocols/dns.c: the walk over the labels of a name, which may refer to other
-- labels, and what it writes to the destination buffer.
pub mod Bounds
use libcap_utils.Prelude.{
  ℕ, zero, suc, ◌+◌, ◌-◌, ◌*◌, ◌%◌, ◌≤◌, Memory, byte_at, List, [], ◌∷◌, Bool, true, false, ◌==◌,
  ◌||◌, ltb, leb, if◌then◌else◌, min, sub64, All,
}

-- A write of some bytes to the destination.
pub record Write : Type 0 where
  pub at : ℕ
  pub bytes : ℕ

-- `*dst` as an offset, `*size`, and the writes so far, the last one first.
pub record Out : Type 0 where
  pub dst : ℕ
  pub size : ℕ
  pub writes : List Write

-- How many bytes `%.*s` prints: up to a null byte, and at most `n`.
unfoldable pub strnlen : Memory → ℕ → ℕ → ℕ
strnlen m src zero = 0
strnlen m src (suc n) =
    let rest = strnlen m (src + 1) n in if byte_at m src == 0 then 0 else suc rest

-- `copy_label` for a string of which `n` bytes are printed: `snprintf` writes the label and a dot, cut
-- to the size and ended by a null byte, and a label that is cut ends in three dots. `*size` is left
-- to the caller, which subtracts what is returned: `taken`.
unfoldable pub copied : ℕ → Out → Out
copied n o =
    let bytes = n + 1 in
    let dst = o.dst + min bytes o.size in
    let label : Write = record { at = o.dst; bytes = min bytes (o.size - 1) + 1 } in
    let dots : Write = record { at = dst - 1; bytes = 4 } in
    if o.size == 0
    then o
    else if ltb o.size bytes
    then record o { dst = dst; writes = dots ∷ label ∷ o.writes }
    else record o { dst = dst; writes = label ∷ o.writes }

unfoldable pub taken : ℕ → Out → ℕ
taken n o =
    let bytes = n + 1 in if o.size == 0 then 0 else if ltb o.size bytes then o.size else bytes

-- A label is copied, and the size that is left goes down.
unfoldable pub put_label : Memory → ℕ → ℕ → Out → Out
unfolding copied taken strnlen
put_label m src len o =
    let n = strnlen m src (min o.size len) in
    record (copied n o) { size = sub64 o.size (taken n o) }

-- The text "[malformed]"; the size stays as it was.
unfoldable pub put_malformed : Out → Out
unfolding copied
put_malformed o = copied (min o.size 11) o

-- The returned position, null, or a loop that ran out of fuel.
pub data Position : Type 0 where
  position : ℕ → Position
  null : Position
  endless : Position

abbrev pub contains : ℕ → List ℕ → Bool
contains x [] = false
contains x (y ∷ ys) = y == x || contains x ys

-- A reference to earlier labels: it is followed if it is new and there is room to remember it.
-- `follow` is the walk with one place less.
abbrev pub refer : (ℕ → List ℕ → Out → Position × Out) → ℕ → List ℕ → ℕ → Out → Position × Out
refer follow slots visited offset o =
    let (_, o') = follow offset (offset ∷ visited) o in
    if offset == 0 || contains offset visited || slots == 0
    then (null, put_malformed o)
    else (null, o')

-- The `do` loop over the labels, at the length `len` of a label and its first byte. Only what a
-- reference writes counts, not where it ends.
unfoldable pub labels :
    (ℕ → List ℕ → Out → Position × Out) → ℕ → ℕ → Memory → ℕ → List ℕ → ℕ → ℕ → Out → Position × Out
unfolding put_label put_malformed
labels follow slots zero m end visited len src o = (endless, o)
labels follow slots (suc fuel) m end visited len src o =
    let o' = put_label m src len o in
    let next = src + len in
    let rest = labels follow slots fuel m end visited (byte_at m next) (next + 1) o' in
    let referred = refer follow slots visited (len % 64 * 256 + byte_at m src) o in
    if leb 192 len
    then (position (src + 1), referred.1)
    else if leb end next
    then (null, o')
    else if byte_at m next == 0
    then (position (next + 1), o')
    else rest

-- `dns_name_int` with so many free places in `visited`.
unfoldable pub dns_name_int : ℕ → Memory → ℕ → ℕ → List ℕ → Out → Position × Out
unfolding labels
dns_name_int zero m end src visited o =
    let found = labels (λ _ _ o. (null, o)) 0 (suc end) m end visited (byte_at m src) (src + 1) o in
    if leb end src then (null, o) else found
dns_name_int (suc slots) m end src visited o =
    let found =
      labels (dns_name_int slots m end) (suc slots) (suc end) m end visited (byte_at m src)
        (src + 1) o in
    if leb end src then (null, o) else found

-- MAX_LABEL_REFERENCES
abbrev pub max_label_references : ℕ
max_label_references = 32

-- `end` is the number of captured bytes from the beginning of `payload`, and `src` an offset there.
unfoldable pub dns_name : ℕ → Memory → ℕ → ℕ → Position × Out
unfolding dns_name_int
dns_name size m src end =
    dns_name_int max_label_references m end src []
      (record { dst = 0; size = if size == 0 then 0 else sub64 size 3; writes = [] })
