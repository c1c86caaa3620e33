-- ===== src/Billing/Period.antt =====
-- The period of a budget window, and the instant from which its spending counts.
use native.Mathlib.Nat.{div-add-mod, mod-lt}
use muhiya_workspace.Prelude.{
  ℕ, suc, ◌+◌, ◌-◌, ◌*◌, ◌/◌, ◌≤◌, ◌<◌, ◌≡◌, refl, false, ◌||◌, Option, none, some, arith, ltb,
  ◌==◌, if◌then◌else◌,
}
use muhiya_workspace.Prelude.Int.{ℤ, pos, negsuc, leb_ℤ, ◌*ℤ◌, wrap64, wrap64_lem, pos-*ℤ}

-- Nanoseconds since Go's zero time, which is 0.
abbrev pub Instant : Type 0
Instant = ℕ

-- `time.Duration(seconds) * time.Second`, an `int64` of nanoseconds that wraps around
unfoldable pub duration_of : ℤ → ℤ
unfolding wrap64 ◌*ℤ◌
duration_of seconds = wrap64 (seconds *ℤ pos 1_000_000_000)

abbrev size : ℤ → ℕ
size (pos n) = n
size (negsuc n) = suc n

-- `now.Sub(assigned)` for a later `now`, which is at most the greatest `int64`
unfoldable pub elapsed_since : Instant → Instant → ℕ
elapsed_since assigned now =
    if ltb 9223372036854775807 (now - assigned) then 9223372036854775807 else now - assigned

-- `windowPeriodStart`. The sign of a duration that has wrapped around cancels in the product of the
-- periods and the duration, so its size counts; a duration that wraps to 0, which needs a multiple
-- of 2^55 seconds, panics in the code and is taken as no period.
unfoldable pub window_period_start : Instant → ℤ → Instant → Instant
unfolding duration_of elapsed_since
window_period_start assigned duration_seconds now =
    if leb_ℤ duration_seconds (pos 0) || assigned == 0
    then assigned
    else if ltb now assigned
    then assigned
    else let duration = size (duration_of duration_seconds) in
      let periods = elapsed_since assigned now / duration in assigned + periods * duration

unfoldable pub effective_floor : Instant → Option Instant → Instant
effective_floor period_start none = period_start
effective_floor period_start (some reset) = if ltb period_start reset then reset else period_start

duration_small :
    (seconds : ℕ) → seconds ≤ 9223372036 → duration_of (pos seconds) ≡ pos (seconds * 1_000_000_000)
unfolding duration_of
duration_small seconds h =
    rw (pos-*ℤ seconds 1_000_000_000)
      (wrap64_lem (pos (seconds * 1_000_000_000)) (omega arith, omega arith))

elapsed_small :
    (assigned now : ℕ)
    → now - assigned ≤ 9223372036854775807
    → elapsed_since assigned now ≡ now - assigned
unfolding elapsed_since
elapsed_small assigned now h = ground arith

-- For a positive duration of at most 9223372036 seconds, which an `int64` of nanoseconds holds, and an
-- instant not before the assignment and at most 2^63 - 1 nanoseconds after it, the period that starts at the
-- result contains the instant, and starts a whole number of durations after the assignment.
pub window_period_contains :
    (assigned seconds now : ℕ)
    → 0 < seconds
    → 0 < assigned
    → assigned ≤ now
    → seconds ≤ 9223372036
    → now - assigned ≤ 9223372036854775807
    → let start = window_period_start assigned (pos seconds) now in
      (start ≤ now)
      × (now < start + seconds * 1_000_000_000)
      × (k : ℕ) × (start ≡ assigned + k * (seconds * 1_000_000_000))
unfolding window_period_start
window_period_contains assigned seconds now hs ha h short near =
    let duration = seconds * 1_000_000_000 in
    let periods = (now - assigned) / duration in
    let normal : (leb_ℤ (pos seconds) (pos 0) || assigned == 0) ≡ false = ground arith in
    let later : ltb now assigned ≡ false = ground arith in
    let whole = div-add-mod (now - assigned) duration in
    let rest = mod-lt (now - assigned) {m = duration} (omega arith) in
    rw (normal, later, duration_small seconds short, elapsed_small assigned now near)
      (grind arith, grind arith, periods, refl)
