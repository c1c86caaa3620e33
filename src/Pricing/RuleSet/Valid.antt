-- ===== src/Pricing/RuleSet/Valid.antt =====
-- What `RuleSet.Validate` accepts.
use muhiya_workspace.Prelude.{ℕ, ◌+◌, ◌≡◌, ◌↔◌, false, List, [], ◌∷◌, ok, arith}
use muhiya_workspace.Prelude.Int.{ℤ, pos, negsuc, ◌≤ℤ◌, ◌<ℤ◌}
use muhiya_workspace.Prelude.Text.{Text, is_empty}
use muhiya_workspace.Pricing.Rates.Inherit
use muhiya_workspace.Pricing.Rates.Inherit.{validate_rates_iff}
use muhiya_workspace.Pricing.Window.{Window}
use muhiya_workspace.Pricing.Window.Valid
use muhiya_workspace.Pricing.Window.Valid.{validate_iff}
use muhiya_workspace.Pricing.RuleSet.{
  RuleSet, Tier, validate, validate_tiers, validate_windows, is_seen, accounting_refused,
}

-- The thresholds are not negative and rise strictly from `previous`, and no rate is negative.
abbrev pub IsAscending : ℤ → List Tier → Type 0
IsAscending previous [] = Unit
IsAscending previous (t ∷ tiers) =
    (pos 0 ≤ℤ t.min_input_tokens_exclusive)
    × (previous <ℤ t.min_input_tokens_exclusive)
    × Inherit.IsNonNegative t.rates
    × IsAscending t.min_input_tokens_exclusive tiers

-- The windows are valid, and no id is in `seen` or stands twice.
abbrev pub AreDistinct : List Text → List Window → Type 0
AreDistinct seen [] = Unit
AreDistinct seen (w ∷ windows) =
    Valid.IsValid w × (is_seen w.id seen ≡ false) × AreDistinct (w.id ∷ seen) windows

pub record IsSound (r : RuleSet) : Type 0 where
  pub named : is_empty r.id ≡ false
  pub known : accounting_refused r.accounting ≡ false
  pub base_ge : Inherit.IsNonNegative r.base
  pub ascending : IsAscending (negsuc 0) r.tiers
  pub distinct : AreDistinct [] r.windows

pub validate_tiers_iff :
    (i : ℕ) (previous : ℤ) (tiers : List Tier)
    → (validate_tiers i previous tiers ≡ ok tt) ↔ IsAscending previous tiers
unfolding validate_tiers
validate_tiers_iff i previous [] = ground arith
validate_tiers_iff i previous (t ∷ tiers) = ground (
  arith,
  validate_rates_iff t.rates,
  validate_tiers_iff (i + 1) t.min_input_tokens_exclusive tiers,
)

pub validate_windows_iff :
    (seen : List Text) (windows : List Window)
    → (validate_windows seen windows ≡ ok tt) ↔ AreDistinct seen windows
unfolding validate_windows
validate_windows_iff seen [] = ground arith
validate_windows_iff seen (w ∷ windows) =
    ground (arith, validate_iff w, validate_windows_iff (w.id ∷ seen) windows)

-- `Validate` accepts exactly the named rule sets of a known accounting mode in which no rate is
-- negative, the tiers rise strictly, and the windows are valid with distinct ids.
pub validate-IsSound : (r : RuleSet) → (validate r ≡ ok tt) ↔ IsSound r
unfolding validate
validate-IsSound r = ground (
  arith,
  validate_rates_iff r.base,
  validate_tiers_iff 0 (negsuc 0) r.tiers,
  validate_windows_iff [] r.windows,
)
