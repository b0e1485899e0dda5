-- ===== src/Api/Time.antt =====
-- `set_timespec_from_msec` of src/util/util.c, the time that openConnection sleeps between its tries.
use sol_project.Prelude.{
  ℕ, ◌+◌, ◌*◌, ◌/◌, ◌%◌, ◌^◌, ◌≡◌, ◌<◌, ◌≤◌, ◌↔◌, refl, Option, none, some, arith, ltb,
  if◌then◌else◌, if_true,
}
use sol_project.Server.State.{Timespec}

-- `none` for -1, on a negative number, which is one from 2 ^ 63 on
unfoldable pub set_timespec_from_msec : ℕ → Option Timespec
set_timespec_from_msec msec =
    if ltb msec (2 ^ 63)
    then some (record { tv_sec = msec / 1000; tv_nsec = msec % 1000 * 1000 })
    else none

-- the time in nanoseconds
abbrev pub nanoseconds : Timespec → ℕ
nanoseconds t = t.tv_sec * 1000000000 + t.tv_nsec

-- For a number of milliseconds that is not negative the timespec is a valid one with the whole
-- seconds of that time, and it is too short by 999000 nanoseconds for each millisecond beyond
-- them, so that it is that time exactly for whole seconds.
pub set_timespec_from_msec_lem :
    (msec : ℕ)
    → msec < 2 ^ 63
    → (t : Timespec) × (set_timespec_from_msec msec ≡ some t)
      × (t.tv_nsec < 1000000000)
      × (t.tv_sec ≡ msec / 1000)
      × (nanoseconds t + msec % 1000 * 999000 ≡ msec * 1000000)
      × (nanoseconds t ≤ msec * 1000000)
      × ((nanoseconds t ≡ msec * 1000000) ↔ (msec % 1000 ≡ 0))
unfolding set_timespec_from_msec
set_timespec_from_msec_lem msec h = (
  record { tv_sec = msec / 1000; tv_nsec = msec % 1000 * 1000 },
  if_true {b = ltb msec (2 ^ 63)} _ _ (ground arith),
  omega arith,
  refl,
  omega arith,
  omega arith,
  (λ e. omega arith, λ e. omega arith),
)
