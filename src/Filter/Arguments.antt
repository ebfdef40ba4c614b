-- ===== src/Filter/Arguments.antt =====
-- `split_argv` of src/createfilter.c: which arguments of a command line are about the filter.
pub mod Laws
use libcap_utils.Prelude.{
  ℕ, zero, suc, ◌+◌, ◌-◌, Bool, true, false, List, [], ◌∷◌, map, length, get_or, drop, ◌==◌, leb,
  ◌&&◌, ◌||◌, if◌then◌else◌,
}
use libcap_utils.Text.{codes, minus}
use libcap_utils.Filter.Criteria.{strncmp_eq}

-- What the options stand for: the bits of `enum FilterBitmask`, and `enum Parameters`.
pub data Flag : Type 0 where
  tp_port start_time end_time mampid iface vlan eth_type eth_src eth_dst ip_proto ip_src ip_dst
        src_port dst_port :
      Flag
  caplen mode frame_max_dt frame_num bpf : Flag

-- `options`; every option wants an argument.
abbrev pub options : List (List ℕ × Flag)
options =
    (codes "tp.port", tp_port)
    ∷ (codes "starttime", start_time)
    ∷ (codes "begin", start_time)
    ∷ (codes "endtime", end_time)
    ∷ (codes "end", end_time)
    ∷ (codes "mampid", mampid)
    ∷ (codes "mpid", mampid)
    ∷ (codes "iface", iface)
    ∷ (codes "if", iface)
    ∷ (codes "eth.vlan", vlan)
    ∷ (codes "eth.type", eth_type)
    ∷ (codes "eth.src", eth_src)
    ∷ (codes "eth.dst", eth_dst)
    ∷ (codes "ip.proto", ip_proto)
    ∷ (codes "ip.src", ip_src)
    ∷ (codes "ip.dst", ip_dst)
    ∷ (codes "tp.sport", src_port)
    ∷ (codes "tp.dport", dst_port)
    ∷ (codes "caplen", caplen)
    ∷ (codes "filter-mode", mode)
    ∷ (codes "frame-max-dt", frame_max_dt)
    ∷ (codes "frame-num", frame_num)
    ∷ (codes "bpf", bpf)
    ∷ []

abbrev pub equals : ℕ
equals = 61

abbrev pub to_equals : List ℕ → ℕ
to_equals [] = 0
to_equals (c ∷ s) = if c == equals then 0 else 1 + to_equals s

-- "find = to determine how many chars to compare": the first '=' behind the first character, or the
-- end of the argument.
unfoldable pub maxlen : List ℕ → ℕ
maxlen arg = 1 + to_equals (drop 1 arg)

-- An argument matches an option whose name begins as the argument does, up to its '='.
unfoldable pub is_option : List ℕ → List (List ℕ × Flag) → Bool
is_option arg [] = false
is_option arg ((name, _) ∷ table) =
    strncmp_eq (maxlen arg - 2) name (drop 2 arg) || is_option arg table

unfoldable pub is_consumed : List ℕ → Bool
unfolding is_option maxlen
is_consumed arg =
    leb 3 (length arg)
    && (get_or arg 0 0 == minus && get_or arg 1 0 == minus && is_option arg options)

-- Whether the next argument is taken too: without a '=', and if it does not begin with '-'.
unfoldable pub takes_next : List ℕ → List ℕ → Bool
unfolding maxlen
takes_next arg next =
    if get_or arg (maxlen arg) 0 == equals
    then false
    else if get_or next 0 0 == minus
    then false
    else true

abbrev pub keeping : List ℕ → List (List ℕ) × List (List ℕ) → List (List ℕ) × List (List ℕ)
keeping arg (kept, taken) = (arg ∷ kept, taken)

abbrev pub taking : List ℕ → List (List ℕ) × List (List ℕ) → List (List ℕ) × List (List ℕ)
taking arg (kept, taken) = (kept, arg ∷ taken)

-- The loop over the arguments behind the program's name: those that are left in `src_argv`, up to its
-- new length, and those that are copied to `dst_argv`. The message on a missing argument is left out.
unfoldable pub split_rest : List (List ℕ) → List (List ℕ) × List (List ℕ)
unfolding is_consumed takes_next
split_rest [] = ([], [])
split_rest (arg ∷ []) = if is_consumed arg then ([], arg ∷ []) else (arg ∷ [], [])
split_rest (arg ∷ next ∷ rest) =
    let one = split_rest (next ∷ rest) in
    let two = split_rest rest in
    if is_consumed arg
    then (if takes_next arg next then taking arg (taking next two) else taking arg one)
    else keeping arg one

-- With the program's name, which both vectors begin with.
unfoldable pub split_argv : List ℕ → List (List ℕ) → List (List ℕ) × List (List ℕ)
unfolding split_rest
split_argv program args = let (kept, taken) = split_rest args in (program ∷ kept, program ∷ taken)
