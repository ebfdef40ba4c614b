-- ===== src/Tests/Arguments.antt =====
-- The theorems on the command line of a filter at concrete arguments.
use libcap_utils.Prelude.{
  ℕ, ◌-◌, ◌*◌, ◌^◌, ◌≡◌, refl, true, none, some, List, [], ◌∷◌, map, All, u32, arith,
}
use libcap_utils.Text.{codes, comma}
use libcap_utils.Text.Numerals.{value, joined}
use libcap_utils.Time.{Picotime, IsNormal}
use libcap_utils.Time.Text.{Format, Dates, find_date, dot, timepico_from_string}
use libcap_utils.Time.Text.Fraction.{timepico_from_string-fraction}
use libcap_utils.Filter.{selected}
use libcap_utils.Filter.Offset
use libcap_utils.Filter.Criteria.{strncmp_eq}
use libcap_utils.Filter.Core.Decision.{IsWellFormed}
use libcap_utils.Filter.Ranges.{parse_frame_range}
use libcap_utils.Filter.Ranges.Laws.{
  Form, single, between, IsForm, text_of, meaning, parse_frame_range-forms,
}
use libcap_utils.Filter.Arguments.{Flag, split_argv}
use libcap_utils.Filter.Values.{System}
use libcap_utils.Filter.CommandLine.{Event, given, Libraries, vector, filter_from_argv}
use libcap_utils.Filter.CommandLine.Laws.{
  some_selects, filter_from_argv-IsWellFormed, filter_from_argv-selected,
}

-- A system that knows nothing but numbers, and reads no date but its epoch.
abbrev epoch_only : Dates
epoch_only f input = elim f [ Format.epoch ↦ some (1000, dot ∷ codes "25") | _ ↦ none ]

abbrev bare_system : System
bare_system = record {
  texts = record { aton = λ t. none; atoi = λ t. 0 };
  getservbyname = λ t. none;
  getprotobyname = λ t. none;
  ether_aton = λ t. none;
  scan_short = λ t. none;
}

-- `getopt_long` on the options that `split_argv` finds below.
abbrev two_options : List (List ℕ) → List Event
two_options args = given Flag.ip_proto (codes "6") ∷ given Flag.frame_num (codes "1,3-5") ∷ []

abbrev bare : Libraries
bare = record {
  system = bare_system;
  dates = epoch_only;
  getopt_long = two_options;
  pcap_compile = λ t. none;
}

abbrev arguments : List (List ℕ)
arguments =
    codes "--ip.proto=6" ∷ codes "trace.cap" ∷ codes "--frame-num" ∷ codes "1,3-5" ∷ codes "-v" ∷ []

-- The two arguments that are not for the filter stay.
split_arguments : split_argv (codes "capinfo") arguments ≡ (
  codes "capinfo" ∷ codes "trace.cap" ∷ codes "-v" ∷ [],
  codes "capinfo" ∷ codes "--ip.proto=6" ∷ codes "--frame-num" ∷ codes "1,3-5" ∷ [],
)
unfolding split_argv strncmp_eq
split_arguments = refl

abbrev one_form : Form
one_form = single (codes "1")

abbrev more_forms : List Form
more_forms = between (codes "3") (codes "5") ∷ []

forms-IsForm : All IsForm (one_form ∷ more_forms)
forms-IsForm = (
  (((λ e. absurd (ground (arith, e))), (refl, tt)), omega arith),
  (
    (
      (((λ e. absurd (ground (arith, e))), (refl, tt)), omega arith),
      (((λ e. absurd (ground (arith, e))), (refl, tt)), omega arith),
    ),
    tt,
  ),
)

parse_frame_range-forms_example :
    parse_frame_range (joined comma (map text_of (one_form ∷ more_forms))) []
    ≡ map meaning (one_form ∷ more_forms)
parse_frame_range-forms_example = parse_frame_range-forms one_form more_forms [] forms-IsForm

filter_from_argv-IsWellFormed_example :
    IsWellFormed (filter_from_argv bare (vector (codes "capinfo") arguments)).1
filter_from_argv-IsWellFormed_example =
    filter_from_argv-IsWellFormed bare (vector (codes "capinfo") arguments)

bare_returns_0 : (filter_from_argv bare (vector (codes "capinfo") arguments)).0 ≡ 0
unfolding filter_from_argv
bare_returns_0 = refl

filter_from_argv-selected_example :
    selected (filter_from_argv bare (vector (codes "capinfo") arguments)).1.index Offset.ip_proto
    ≡ some_selects bare Offset.ip_proto (two_options (split_argv (codes "capinfo") arguments).1)
filter_from_argv-selected_example =
    filter_from_argv-selected bare Offset.ip_proto (codes "capinfo") arguments bare_returns_0

timepico_from_string-fraction_example :
    let t : Picotime = record { tv_sec = u32 1000; tv_psec = value (codes "25") * 10 ^ (12 - 2) } in
    (timepico_from_string epoch_only (codes "1000.25") ≡ (true, t)) × IsNormal t
unfolding find_date
timepico_from_string-fraction_example =
    timepico_from_string-fraction epoch_only (codes "1000.25") (codes "25") 1000 refl
      ((λ e. absurd (ground (arith, e))), (refl, (refl, tt))) (omega arith)
