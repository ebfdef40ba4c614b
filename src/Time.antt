-- ===== src/Time.antt =====
-- src/picotime.c and caputils/picotime.h: timestamps down to the picosecond.
-- `PICODIVIDER` is the double 1e12, so the code mixes 64-bit words with doubles. A double holds
-- every integer below 2 ^ 53, and the arithmetic here is the exact one: it is the code's as long as
-- the picoseconds stay below 2 ^ 53, which the results ask for by `IsNormal`. A double that is
-- converted to uint64_t wraps, as the compilers for the supported machines have it.
pub mod Order
pub mod Arithmetic
pub mod Text
use libcap_utils.Prelude.{
  ℕ, zero, suc, ◌+◌, ◌-◌, ◌*◌, ◌/◌, ◌<◌, ◌^◌, Bool, ltb, if◌then◌else◌, u32, u64, sub32, sub64,
}

-- `struct picotime`, a uint32_t and a uint64_t
pub record Picotime : Type 0 where
  pub tv_sec : ℕ
  pub tv_psec : ℕ

-- `PICODIVIDER`
abbrev pub pico_divider : ℕ
pico_divider = 10 ^ 12

-- `struct timespec` and `struct timeval`: the words of a `long`
pub record Timespec : Type 0 where
  pub tv_sec : ℕ
  pub tv_nsec : ℕ

pub record Timeval : Type 0 where
  pub tv_sec : ℕ
  pub tv_usec : ℕ

unfoldable pub timespec_to_timepico : Timespec → Picotime
timespec_to_timepico t = record { tv_sec = u32 t.tv_sec; tv_psec = u64 (u64 t.tv_nsec * 1000) }

unfoldable pub timeval_to_timepico : Timeval → Picotime
timeval_to_timepico t = record {
  tv_sec = u32 t.tv_sec;
  tv_psec = u64 (u64 (u64 t.tv_usec * 1000) * 1000);
}

unfoldable pub timepico_new : ℕ → ℕ → Picotime
timepico_new sec psec = record { tv_sec = u32 sec; tv_psec = u64 psec }

-- The result of `timecmp`: -1, 0 and 1.
pub data Comparison : Type 0 where
  before same after : Comparison

unfoldable pub timecmp : Picotime → Picotime → Comparison
timecmp ts1 ts2 =
    if ltb ts1.tv_sec ts2.tv_sec
    then before
    else if ltb ts2.tv_sec ts1.tv_sec
    then after
    else if ltb ts1.tv_psec ts2.tv_psec
    then before
    else if ltb ts2.tv_psec ts1.tv_psec
    then after
    else same

-- The first `if` of `timepico_sub`: take whole seconds out of `y.tv_psec` until `x.tv_psec` covers
-- it.
unfoldable pub borrow : Picotime → Picotime → Picotime
borrow x y =
    let psec = (y.tv_psec - x.tv_psec) / pico_divider + 1 in
    if ltb x.tv_psec y.tv_psec
    then record { tv_sec = u32 (y.tv_sec + psec); tv_psec = sub64 y.tv_psec (pico_divider * psec) }
    else y

-- The second `if`: put whole seconds back where the difference has more than one.
unfoldable pub give_back : Picotime → Picotime → Picotime
give_back x y =
    let excess = sub64 x.tv_psec y.tv_psec in
    let psec = excess / pico_divider in
    if ltb pico_divider excess
    then record { tv_sec = sub32 y.tv_sec psec; tv_psec = u64 (y.tv_psec + pico_divider * psec) }
    else y

unfoldable pub timepico_sub : Picotime → Picotime → Picotime
unfolding borrow give_back
timepico_sub x y =
    let y' = give_back x (borrow x y) in
    record { tv_sec = sub32 x.tv_sec y'.tv_sec; tv_psec = sub64 x.tv_psec y'.tv_psec }

-- The loop of `timepico_add`, on fuel.
unfoldable pub carry : ℕ → Picotime → Picotime
carry zero tmp = tmp
carry (suc fuel) tmp =
    let rest =
      carry fuel (record { tv_sec = u32 (tmp.tv_sec + 1); tv_psec = tmp.tv_psec - pico_divider }) in
    if ltb pico_divider tmp.tv_psec then rest else tmp

-- Each round takes a second out of the picoseconds, so as many rounds as they hold are enough.
unfoldable pub timepico_add : Picotime → Picotime → Picotime
unfolding carry
timepico_add a b =
    let psec = u64 (a.tv_psec + b.tv_psec) in
    carry (psec / pico_divider + 1) (record { tv_sec = u32 (a.tv_sec + b.tv_sec); tv_psec = psec })

-- A timestamp whose fields are what their types hold, with less than a second of picoseconds.
pub record IsNormal (t : Picotime) : Type 0 where
  pub sec_fits : t.tv_sec < 2 ^ 32
  pub psec_fits : t.tv_psec < pico_divider

-- The picoseconds since the epoch that a timestamp stands for.
abbrev pub instant : Picotime → ℕ
instant t = t.tv_sec * pico_divider + t.tv_psec
