-- ===== src/Pricing/Window.antt =====
-- pricing/window.go: time-of-day windows. An instant is the number of nanoseconds since the zero
-- time of Go, midnight of Monday 1 January of the year 1 in UTC; `none` is a nil pointer.
pub mod Active
pub mod Valid
use Prim.Native.Nat.{bit_and}
use muhiya_workspace.Prelude.{
  ℕ, ◌+◌, ◌*◌, ◌/◌, ◌%◌, ◌^◌, Bool, true, false, not, ◌&&◌, ◌||◌, Option, none, some, List, [], ◌∷◌,
  Result, ok, ◌>>◌, if◌then◌else◌, ltb, leb, ◌==◌,
}
use muhiya_workspace.Prelude.Int.{ℤ, pos, ltb_ℤ, leb_ℤ, eqb_ℤ, to_word}
use muhiya_workspace.Prelude.Text.{Text, is_empty}
use muhiya_workspace.Pricing.Usage.{TokenClass, class_eq, token_classes}
use muhiya_workspace.Pricing.Fault.{
  Fault, refuse_if, window_id_required, start_out_of_range, end_out_of_range, ambiguous_minutes,
  weekday_mask_empty, denominator_not_positive, numerator_negative, unknown_class,
  effective_disordered,
}

abbrev pub Instant : Type 0
Instant = ℕ

abbrev pub minutes_per_day : ℤ
minutes_per_day = pos 1440

abbrev pub all_weekdays : ℤ
all_weekdays = pos 127

pub record Window : Type 0 where
  pub id : Text
  pub label : Text
  pub start_minute : ℤ
  pub end_minute : ℤ
  pub weekday_mask : ℤ
  pub multiplier_num : ℤ
  pub multiplier_den : ℤ
  pub applies_to : List TokenClass
  pub priority : ℤ
  pub effective_from : Option Instant
  pub effective_until : Option Instant

class_in : TokenClass → List TokenClass → Bool
class_in class [] = false
class_in class (known ∷ classes) = if class_eq known class then true else class_in class classes

unfoldable pub valid_class : TokenClass → Bool
unfolding class_in class_eq
valid_class class = class_in class token_classes

validate_classes : Text → List TokenClass → Result Fault (Unit {0})
validate_classes id [] = ok tt
validate_classes id (class ∷ classes) =
    refuse_if (not (valid_class class)) (unknown_class id) >> validate_classes id classes

-- `EffectiveFrom != nil && EffectiveUntil != nil && !EffectiveUntil.After(*EffectiveFrom)`
abbrev pub disordered : Option Instant → Option Instant → Bool
disordered (some from) (some until) = leb until from
disordered (some from) none = false
disordered none until = false

unfoldable pub validate : Window → Result Fault (Unit {0})
unfolding is_empty validate_classes
validate w = do
  refuse_if (is_empty w.id) window_id_required
  refuse_if (ltb_ℤ w.start_minute (pos 0) || leb_ℤ minutes_per_day w.start_minute)
      (start_out_of_range w.id)
  refuse_if (ltb_ℤ w.end_minute (pos 0) || ltb_ℤ minutes_per_day w.end_minute)
      (end_out_of_range w.id)
  refuse_if (eqb_ℤ w.start_minute w.end_minute) (ambiguous_minutes w.id)
  refuse_if (ltb_ℤ w.weekday_mask (pos 1) || ltb_ℤ all_weekdays w.weekday_mask)
      (weekday_mask_empty w.id)
  refuse_if (leb_ℤ w.multiplier_den (pos 0)) (denominator_not_positive w.id)
  refuse_if (ltb_ℤ w.multiplier_num (pos 0)) (numerator_negative w.id)
  validate_classes w.id w.applies_to
  refuse_if (disordered w.effective_from w.effective_until) (effective_disordered w.id)

-- `Hour()*60 + Minute()` in UTC
unfoldable pub minute_of_day : Instant → ℕ
minute_of_day at = at / 3_600_000_000_000 % 24 * 60 + at / 60_000_000_000 % 60

-- `Weekday()` in UTC, Sunday = 0
unfoldable pub weekday : Instant → ℕ
weekday at = (at / 86_400_000_000_000 + 1) % 7

unfoldable pub weekday_bit : Instant → ℕ
unfolding weekday
weekday_bit at = let iso = (weekday at + 6) % 7 in 2 ^ iso

unfoldable pub covers_minute : Window → ℤ → Bool
covers_minute w minute =
    if ltb_ℤ w.start_minute w.end_minute
    then leb_ℤ w.start_minute minute && ltb_ℤ minute w.end_minute
    else leb_ℤ w.start_minute minute || ltb_ℤ minute w.end_minute

abbrev pub before_start : Option Instant → Instant → Bool
before_start none at = false
before_start (some from) at = ltb at from

abbrev pub past_end : Option Instant → Instant → Bool
past_end none at = false
past_end (some until) at = not (ltb at until)

unfoldable pub matches : Window → Instant → Bool
unfolding weekday_bit covers_minute minute_of_day
matches w at =
    if at == 0
    then false
    else if before_start w.effective_from at
    then false
    else if past_end w.effective_until at
    then false
    else if bit_and (to_word w.weekday_mask) (weekday_bit at) == 0
    then false
    else covers_minute w (pos (minute_of_day at))

-- An empty list of classes stands for every class.
unfoldable pub applies : List TokenClass → TokenClass → Bool
unfolding class_in
applies [] class = true
applies (first ∷ rest) class = class_in class (first ∷ rest)

unfoldable pub scale_for : Window → TokenClass → ℤ × ℤ
scale_for w class =
    if applies w.applies_to class then (w.multiplier_num, w.multiplier_den) else (pos 1, pos 1)

unfoldable pub is_identity : Window → Bool
is_identity w = eqb_ℤ w.multiplier_num w.multiplier_den
