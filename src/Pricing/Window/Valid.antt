-- ===== src/Pricing/Window/Valid.antt =====
-- What `Window.Validate` accepts.
use muhiya_workspace.Prelude.{
  ◌<◌, ◌≤◌, ◌≡◌, ◌≢◌, ◌↔◌, true, false, Option, none, some, List, [], ◌∷◌, ok, arith, All,
}
use muhiya_workspace.Prelude.Int.{neg_part, pos_part}
use muhiya_workspace.Prelude.Text.{Text, is_empty}
use muhiya_workspace.Pricing.Usage.{TokenClass}
use muhiya_workspace.Pricing.Window.{
  Window, Instant, validate, validate_classes, valid_class, disordered, scale_for,
}

-- The end of a window's validity lies after its start, where it has both.
abbrev pub IsOrdered : Option Instant → Option Instant → Type 0
IsOrdered (some from) (some until) = from < until
IsOrdered (some _) none = Unit
IsOrdered none _ = Unit

pub record IsValid (w : Window) : Type 0 where
  pub named : is_empty w.id ≡ false
  pub start_ge : neg_part w.start_minute ≡ 0
  pub start_lt : pos_part w.start_minute < 1440
  pub end_ge : neg_part w.end_minute ≡ 0
  pub end_le : pos_part w.end_minute ≤ 1440
  pub minutes_ne : pos_part w.start_minute ≢ pos_part w.end_minute
  pub mask_ge : 1 ≤ pos_part w.weekday_mask
  pub mask_le : pos_part w.weekday_mask ≤ 127
  pub den_pos : 1 ≤ pos_part w.multiplier_den
  pub num_ge : neg_part w.multiplier_num ≡ 0
  pub classes : All (λ class. valid_class class ≡ true) w.applies_to
  pub ordered : IsOrdered w.effective_from w.effective_until

validate_classes_iff :
    (id : Text) (classes : List TokenClass)
    → (validate_classes id classes ≡ ok tt) ↔ All (λ class. valid_class class ≡ true) classes
unfolding validate_classes
validate_classes_iff id [] = ground arith
validate_classes_iff id (class ∷ classes) = ground (arith, validate_classes_iff id classes)

disordered_iff :
    (from until : Option Instant) → (disordered from until ≡ false) ↔ IsOrdered from until
disordered_iff none none = ground arith
disordered_iff none (some until) = ground arith
disordered_iff (some from) none = ground arith
disordered_iff (some from) (some until) = ground arith

-- `Validate` accepts exactly the windows with a name, minutes in range and not equal, a weekday, a
-- positive denominator, a non-negative numerator, known classes, and an end after the start.
pub validate_iff : (w : Window) → (validate w ≡ ok tt) ↔ IsValid w
unfolding validate
validate_iff w = ground (
  arith,
  validate_classes_iff w.id w.applies_to,
  disordered_iff w.effective_from w.effective_until,
)

-- The scale of a class is usable in a cost.
pub scale_for_usable :
    (w : Window) (class : TokenClass)
    → IsValid w
    → (neg_part (scale_for w class).0 ≡ 0) × (1 ≤ pos_part (scale_for w class).1)
unfolding scale_for
scale_for_usable w class v = ground arith
