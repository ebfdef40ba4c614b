-- ===== src/Time/Arithmetic.antt =====
-- What `timepico_sub` and `timepico_add` compute, and where `timepico_add` is not normal.
use libcap_utils.Prelude.{
  ℕ, zero, suc, ◌+◌, ◌-◌, ◌*◌, ◌/◌, ◌<◌, ◌≤◌, ◌≡◌, ◌^◌, arith, ltb, if◌then◌else◌, u32, u64,
  Bool-cases, inl, inr,
}
use libcap_utils.Time.{
  Picotime, before, timecmp, IsNormal, instant, pico_divider, timepico_sub, timepico_add, carry,
  timepico_new,
}

-- For normal timestamps with `y` not after `x`, `timepico_sub` is the exact difference, and normal.
pub timepico_sub-instant :
    (x y : Picotime)
    → IsNormal x
    → IsNormal y
    → instant y ≤ instant x
    → (instant (timepico_sub x y) + instant y ≡ instant x) × IsNormal (timepico_sub x y)
unfolding timepico_sub
timepico_sub-instant x y nx ny h = ground arith

-- `timepico_add` of normal timestamps whose seconds do not overflow.
timepico_add_cases :
    (a b : Picotime)
    → IsNormal a
    → IsNormal b
    → timepico_add a b ≡ (
        if ltb pico_divider (a.tv_psec + b.tv_psec)
        then record {
          tv_sec = u32 (u32 (a.tv_sec + b.tv_sec) + 1);
          tv_psec = a.tv_psec + b.tv_psec - pico_divider;
        }
        else record { tv_sec = u32 (a.tv_sec + b.tv_sec); tv_psec = a.tv_psec + b.tv_psec })
unfolding timepico_add
timepico_add_cases a b na nb = ground arith

-- The loop of `timepico_add` ends by its test, and moves whole seconds without losing any.
carry_lem :
    (fuel : ℕ) (t : Picotime)
    → t.tv_psec / pico_divider < fuel
    → (k : ℕ) × ((carry fuel t).tv_psec ≤ pico_divider)
      × ((carry fuel t).tv_psec + pico_divider * k ≡ t.tv_psec)
      × (u32 (carry fuel t).tv_sec ≡ u32 (t.tv_sec + k))
unfolding carry
carry_lem zero t h = absurd (omega arith)
carry_lem (suc fuel) t h = elim (Bool-cases (ltb pico_divider t.tv_psec)) [
  | inl more ↦
      let next : Picotime = record {
        tv_sec = u32 (t.tv_sec + 1);
        tv_psec = t.tv_psec - pico_divider;
      } in
      let (k, small, sum, sec) = carry_lem fuel next (ground arith) in
      (k + 1, rw more small, rw more (ground arith), rw more (omega arith))
  | inr done ↦ (0, rw done (ground arith), rw done (omega arith), rw done (omega arith))
]

-- For any two timestamps the loop of `timepico_add` ends: the result has at most one second of
-- picoseconds, and with the whole seconds `k` that were carried it is the sum of the fields, in the
-- arithmetic of their words.
timepico_add_total :
    (a b : Picotime)
    → (k : ℕ) × ((timepico_add a b).tv_psec ≤ pico_divider)
      × ((timepico_add a b).tv_psec + pico_divider * k ≡ u64 (a.tv_psec + b.tv_psec))
      × (u32 (timepico_add a b).tv_sec ≡ u32 (a.tv_sec + b.tv_sec + k))
unfolding timepico_add
timepico_add_total a b =
    let psec = u64 (a.tv_psec + b.tv_psec) in
    let (k, small, sum, sec) =
      carry_lem (psec / pico_divider + 1)
        (record { tv_sec = u32 (a.tv_sec + b.tv_sec); tv_psec = psec }) (omega arith) in
    (k, small, sum, omega arith)

-- `timepico_sub` undoes `timepico_add` on normal timestamps, also where the sum is not normal or
-- its seconds wrap.
pub timepico_sub-add :
    (a b : Picotime) → IsNormal a → IsNormal b → timepico_sub (timepico_add a b) b ≡ a
unfolding timepico_sub
timepico_sub-add a b na nb = rw (timepico_add_cases a b na nb) (ground arith)

-- Where the picoseconds add up to exactly one second, `timepico_add` keeps them as a full second of
-- picoseconds, so that `timecmp` puts the sum before the same instant in normal form.
pub timepico_add_full_second :
    (a b : Picotime)
    → IsNormal a
    → IsNormal b
    → a.tv_psec + b.tv_psec ≡ pico_divider
    → a.tv_sec + b.tv_sec + 1 < 2 ^ 32
    → let exact = timepico_new (a.tv_sec + b.tv_sec + 1) 0 in
      (instant (timepico_add a b) ≡ instant exact) × (timecmp (timepico_add a b) exact ≡ before)
unfolding timepico_new timecmp
timepico_add_full_second a b na nb h k = rw (timepico_add_cases a b na nb) (ground arith)
