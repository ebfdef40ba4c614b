-- ===== src/Filter/CommandLine/Laws.antt =====
-- The filters that `filter_from_argv` makes: which criteria they select.
use libcap_utils.Prelude.{
  ℕ, ◌<◌, ◌^◌, ◌≡◌, ◌⊎◌, inl, inr, refl, sym, ap, ap₂, ◌∙◌, Bool, true, false, Bool-cases, Option,
  none, some, List, [], ◌∷◌, ◌==◌, ◌&&◌, ◌||◌, bit_or-pow-lt, bit_and-le, arith,
}
use mathlib.Core.Path.{subst}
use native.Mathlib.Decide.{ℕ_discrete}
use libcap_utils.Filter.{Filter, selected}
use libcap_utils.Filter.Offset
use libcap_utils.Filter.Setters.{filter_init, select}
use libcap_utils.Filter.Setters.Laws.{selected-select_self, selected-select_ne}
use libcap_utils.Filter.Core.Decision.{IsWellFormed}
use libcap_utils.Filter.Arguments.{Flag, split_argv}
use libcap_utils.Filter.CommandLine.Accepts.{
  criterion, takes, offset_of-criterion, store_value-takes,
}
use libcap_utils.Filter.CommandLine.{
  Event, given, unknown, Libraries, update_index, store_value, bpf_set, offset_of, status, handle,
  run_events, CommandLine, without, missing, vector, filter_from_argv,
}

offset_of-lt : (flag : Flag) (k : ℕ) → offset_of flag ≡ some k → k < 16
offset_of-lt Flag.caplen k e = absurd (ground (arith, e))
offset_of-lt _ k e = ground (arith, e)

selected-select : (index k j : ℕ) → selected index j ≡ true → selected (select index k) j ≡ true
selected-select index k j h = elim (ℕ_discrete k j) [
  | yes e ↦ rw e (selected-select_self index j)
  | no ne ↦ selected-select_ne index k j ne ∙ h
]

same_ranges :
    (f g : Filter) → g.index ≡ f.index → g.frame_num ≡ f.frame_num → IsWellFormed f → IsWellFormed g
same_ranges f g e d w = record {
  index_fits = rw e (w.index_fits);
  ranges_selected = elim w.ranges_selected [ inl h ↦ inl (d ∙ h) | inr h ↦ inr (rw e h) ];
}

or_none : (a b : Bool) → b ≡ false → (a || b) ≡ a
or_none a b h = ground (arith, h)

selected-zero : (j : ℕ) → selected 0 j ≡ false
unfolding selected
selected-zero j = ground (arith, bit_and-le 0 (2 ^ j))

-- An accepted value sets the bit of its criterion, if it has one.
abbrev pub chooses : ℕ → Option ℕ → Bool → Bool
chooses j none ok = false
chooses j (some k) ok = k == j && ok

or_swap : (a b c : Bool) → (a || (b || c)) ≡ ((b || a) || c)
or_swap a b c = ground arith

fresh : IsWellFormed filter_init
unfolding filter_init
fresh = record { index_fits = omega arith; ranges_selected = inl refl }

module _ (libraries : Libraries) where
  store_value-index :
      (flag : Flag) (arg : List ℕ) (f : Filter)
      → (store_value libraries flag arg f).1.index ≡ f.index
  unfolding store_value bpf_set
  store_value-index Flag.bpf arg f = ground arith
  store_value-index _ arg f = refl

  store_value-frame_num :
      (flag : Flag) (arg : List ℕ) (f : Filter)
      → ((store_value libraries flag arg f).1.frame_num ≡ f.frame_num)
        ⊎ ((flag ≡ Flag.frame_num) × ((store_value libraries flag arg f).0 ≡ true))
  unfolding store_value bpf_set
  store_value-frame_num Flag.bpf arg f = inl (ground arith)
  store_value-frame_num Flag.frame_num arg f = inr (refl, refl)
  store_value-frame_num _ arg f = inl refl

  update_index-IsWellFormed :
      (ok : Bool) (k : ℕ) (f : Filter)
      → k < 16
      → IsWellFormed f
      → IsWellFormed (update_index ok k f)
  unfolding select
  update_index-IsWellFormed false k f h w = w
  update_index-IsWellFormed true k f h w = record {
    index_fits = bit_or-pow-lt 16 k f.index w.index_fits h;
    ranges_selected = keep_selected w.ranges_selected;
  }
    where
      keep_selected :
          (f.frame_num ≡ []) ⊎ (selected f.index Offset.frame_num ≡ true)
          → (f.frame_num ≡ []) ⊎ (selected (select f.index k) Offset.frame_num ≡ true)
      keep_selected (inl e) = inl e
      keep_selected (inr e) = inr (selected-select f.index k Offset.frame_num e)

  abbrev updated : Option ℕ → Bool × Filter → Filter
  updated o (ok, g) = elim o [ none ↦ g | some offset ↦ update_index ok offset g ]

  updated-IsWellFormed :
      (flag : Flag) (o : Option ℕ) (result : Bool × Filter)
      → offset_of flag ≡ o
      → IsWellFormed result.1
      → IsWellFormed (updated o result)
  updated-IsWellFormed flag none (ok, g) e w = w
  updated-IsWellFormed flag (some k) (ok, g) e w =
      update_index-IsWellFormed ok k g (offset_of-lt flag k e) w

  frame_num-IsWellFormed :
      (arg : List ℕ) (f : Filter)
      → IsWellFormed f
      → IsWellFormed (handle libraries Flag.frame_num arg f)
  unfolding handle store_value select
  frame_num-IsWellFormed arg f w = record {
    index_fits = bit_or-pow-lt 16 15 f.index w.index_fits (omega arith);
    ranges_selected = inr (selected-select_self f.index Offset.frame_num);
  }

  handle-IsWellFormed :
      (flag : Flag) (arg : List ℕ) (f : Filter)
      → IsWellFormed f
      → IsWellFormed (handle libraries flag arg f)
  unfolding handle
  handle-IsWellFormed flag arg f w = elim (store_value-frame_num flag arg f) [
    | inl same ↦
        updated-IsWellFormed flag (offset_of flag) (store_value libraries flag arg f) refl
          (same_ranges f (store_value libraries flag arg f).1 (store_value-index flag arg f) same w)
    | inr (e, accepted) ↦
        subst (λ flag'. IsWellFormed (handle libraries flag' arg f)) (sym e)
          (frame_num-IsWellFormed arg f w)
  ]

  run_events-IsWellFormed :
      (f : Filter) (events : List Event)
      → IsWellFormed f
      → IsWellFormed (run_events libraries f events).1
  unfolding run_events
  run_events-IsWellFormed f [] w = w
  run_events-IsWellFormed f (unknown ∷ events) w = w
  run_events-IsWellFormed f (given flag arg ∷ events) w =
      let w' = handle-IsWellFormed flag arg f w in
      elim (Bool-cases (status libraries flag arg f == 0)) [
        | inl fine ↦ rw fine (run_events-IsWellFormed (handle libraries flag arg f) events w')
        | inr failed ↦ rw failed w'
      ]

  -- Whatever the command line and whatever the system and the other libraries answer, errors included,
  -- the filter is well-formed: it selects known criteria only, and the frame number if it has ranges.
  pub filter_from_argv-IsWellFormed :
      (line : CommandLine) → IsWellFormed (filter_from_argv libraries line).1
  unfolding filter_from_argv filter_init
  filter_from_argv-IsWellFormed without = fresh
  filter_from_argv-IsWellFormed missing = fresh
  filter_from_argv-IsWellFormed (vector program args) =
      run_events-IsWellFormed filter_init (libraries.getopt_long (split_argv program args).1) fresh

  -- An option selects a criterion if it is for that criterion and takes the value that is given.
  abbrev pub selects : ℕ → Event → Bool
  selects j unknown = false
  selects j (given flag arg) = chooses j (criterion flag) (takes libraries flag arg)

  abbrev pub some_selects : ℕ → List Event → Bool
  some_selects j [] = false
  some_selects j (event ∷ events) = selects j event || some_selects j events

  selected-updated :
      (j : ℕ) (o : Option ℕ) (result : Bool × Filter) (f : Filter)
      → result.1.index ≡ f.index
      → selected (updated o result).index j ≡ (chooses j o result.0 || selected f.index j)
  selected-updated j none (ok, g) f e = rw e refl
  selected-updated j (some k) (false, g) f e = rw e (ground arith)
  selected-updated j (some k) (true, g) f e = elim (ℕ_discrete k j) [
    | yes same ↦ rw (e, same, selected-select_self f.index j) (ground arith)
    | no ne ↦ rw (e, selected-select_ne f.index k j ne) (ground (arith, ne))
  ]

  selected-handle :
      (j : ℕ) (flag : Flag) (arg : List ℕ) (f : Filter)
      → selected (handle libraries flag arg f).index j
        ≡ (selects j (given flag arg) || selected f.index j)
  unfolding handle
  selected-handle j flag arg f =
      selected-updated j (offset_of flag) (store_value libraries flag arg f) f
        (store_value-index flag arg f)
      ∙ ap₂ (λ (o : Option ℕ) (b : Bool). chooses j o b || selected f.index j)
          (offset_of-criterion flag) (store_value-takes libraries flag arg f)

  run_events-selected :
      (j : ℕ) (f : Filter) (events : List Event)
      → (run_events libraries f events).0 ≡ 0
      → selected (run_events libraries f events).1.index j
        ≡ (some_selects j events || selected f.index j)
  unfolding run_events
  run_events-selected j f [] h = refl
  run_events-selected j f (unknown ∷ events) h = absurd (ground (arith, h))
  run_events-selected j f (given flag arg ∷ events) h =
      elim (Bool-cases (status libraries flag arg f == 0)) [
        | inl fine ↦
            let next = handle libraries flag arg f in
            let rest = run_events-selected j next events (rw fine at h) in
            rw fine (
              rest
              ∙ ap (λ b. some_selects j events || b) (selected-handle j flag arg f)
              ∙ or_swap (some_selects j events) (selects j (given flag arg)) (selected f.index j))
        | inr failed ↦ absurd (ground (arith, failed, rw failed at h))
      ]

  -- Where `filter_from_argv` returns 0, the filter selects a criterion, by its number in
  -- `enum FilterOffset`, exactly if one of the options that `getopt_long` finds among the filter's
  -- arguments is for it and takes the value that is given: a port, a service or a text that begins with
  -- a digit, in front of a '/'; a time, a text with a date in one of four formats; a MAMPid, an
  -- interface and frame ranges, any text; a VLAN tag, a number or a blank text; an Ethernet type, a name,
  -- a number or a blank text in front of a '/'; an Ethernet address, one with a mask behind a '/' if
  -- there is one; an IP protocol, a name or a text that begins with a digit; an IPv4 address, one with a
  -- mask behind a '/' if there is one, which is an address or a number of bits, 32 at most.
  pub filter_from_argv-selected :
      (j : ℕ) (program : List ℕ) (args : List (List ℕ))
      → (filter_from_argv libraries (vector program args)).0 ≡ 0
      → selected (filter_from_argv libraries (vector program args)).1.index j
        ≡ some_selects j (libraries.getopt_long (split_argv program args).1)
  unfolding filter_from_argv filter_init
  filter_from_argv-selected j program args h =
      run_events-selected j filter_init (libraries.getopt_long (split_argv program args).1) h
      ∙ or_none (some_selects j (libraries.getopt_long (split_argv program args).1))
          (selected filter_init.index j) (selected-zero j)
