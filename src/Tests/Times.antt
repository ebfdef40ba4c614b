-- ===== src/Tests/Times.antt =====
-- The theorems on timestamps at concrete ones.
use libcap_utils.Prelude.{◌+◌, ◌≡◌, refl, arith}
use libcap_utils.Time.{timecmp, before, timepico_sub, timepico_add, timepico_new, IsNormal, instant}
use libcap_utils.Time.Order.{compare_instants, timecmp-instant}
use libcap_utils.Time.Arithmetic.{timepico_sub-instant, timepico_sub-add, timepico_add_full_second}
use libcap_utils.Tests.{noon, later}

noon-IsNormal : IsNormal noon
noon-IsNormal = record { sec_fits = omega arith; psec_fits = omega arith }

later-IsNormal : IsNormal later
later-IsNormal = record { sec_fits = omega arith; psec_fits = omega arith }

timecmp-instant_example : timecmp noon later ≡ compare_instants (instant noon) (instant later)
timecmp-instant_example = timecmp-instant noon later noon-IsNormal later-IsNormal

timepico_sub-instant_example :
    (instant (timepico_sub later noon) + instant noon ≡ instant later)
    × IsNormal (timepico_sub later noon)
timepico_sub-instant_example =
    timepico_sub-instant later noon later-IsNormal noon-IsNormal (omega arith)

timepico_sub-add_example : timepico_sub (timepico_add later noon) noon ≡ later
timepico_sub-add_example = timepico_sub-add later noon later-IsNormal noon-IsNormal

timepico_add_full_second_example :
    let exact = timepico_new (43201 + 43200 + 1) 0 in
    (instant (timepico_add later noon) ≡ instant exact)
    × (timecmp (timepico_add later noon) exact ≡ before)
timepico_add_full_second_example =
    timepico_add_full_second later noon later-IsNormal noon-IsNormal refl (omega arith)
