-- ===== src/Pricing/RuleSet.antt =====
-- pricing/pricing.go: rule sets, their validation and construction, and the selection of a tier
-- and of a window.
pub mod Valid
pub mod Select
pub mod Governing
use muhiya_workspace.Prelude.{
  ℕ, zero, suc, ◌+◌, ◌-◌, ◌%◌, Bool, true, false, not, ◌&&◌, ◌||◌, Option, none, some, List, [],
  ◌∷◌, Result, ok, ◌>>◌, if◌then◌else◌, ◌==◌,
}
use muhiya_workspace.Prelude.Int.{ℤ, pos, negsuc, ltb_ℤ, leb_ℤ, eqb_ℤ}
use muhiya_workspace.Prelude.Text.{Text, is_empty, text_eq, text_lt}
use muhiya_workspace.Pricing.Usage.{PromptAccounting, unset, inclusive, accounting_valid}
use muhiya_workspace.Pricing.Rates.{Rates, validate_rates}
use muhiya_workspace.Pricing.Fault.{
  Fault, refuse_if, wrapped, rule_set_id_required, unknown_accounting, base_rates, tier_negative,
  tiers_unordered, tier_rates, duplicate_window,
}
use muhiya_workspace.Pricing.Window
use muhiya_workspace.Pricing.Window.{Window, Instant, matches}

pub record Tier : Type 0 where
  pub min_input_tokens_exclusive : ℤ
  pub rates : Rates

pub record RuleSet : Type 0 where
  pub id : Text
  pub base : Rates
  pub tiers : List Tier
  pub windows : List Window
  pub accounting : PromptAccounting

abbrev pub base_tier_threshold : ℤ
base_tier_threshold = negsuc 0

-- the loop over the tiers in `Validate`
unfoldable pub validate_tiers : ℕ → ℤ → List Tier → Result Fault (Unit {0})
validate_tiers i previous [] = ok tt
validate_tiers i previous (tier ∷ tiers) = do
  refuse_if (ltb_ℤ tier.min_input_tokens_exclusive (pos 0)) (tier_negative i)
  refuse_if (leb_ℤ tier.min_input_tokens_exclusive previous) tiers_unordered
  wrapped (tier_rates i) (validate_rates tier.rates)
  validate_tiers (i + 1) tier.min_input_tokens_exclusive tiers

-- membership in the map `seen`
unfoldable pub is_seen : Text → List Text → Bool
is_seen id [] = false
is_seen id (known ∷ seen) = if text_eq id known then true else is_seen id seen

-- the loop over the windows in `Validate`
unfoldable pub validate_windows : List Text → List Window → Result Fault (Unit {0})
unfolding is_seen
validate_windows seen [] = ok tt
validate_windows seen (window ∷ windows) = do
  Window.validate window
  refuse_if (is_seen window.id seen) (duplicate_window window.id)
  validate_windows (window.id ∷ seen) windows

-- `r.Accounting != "" && !r.Accounting.Valid()`
unfoldable pub accounting_refused : PromptAccounting → Bool
unfolding accounting_valid
accounting_refused unset = false
accounting_refused mode = not (accounting_valid mode)

unfoldable pub validate : RuleSet → Result Fault (Unit {0})
unfolding is_empty accounting_refused accounting_valid
validate r = do
  refuse_if (is_empty r.id) rule_set_id_required
  refuse_if (accounting_refused r.accounting) unknown_accounting
  wrapped base_rates (validate_rates r.base)
  validate_tiers 0 (negsuc 0) r.tiers
  validate_windows [] r.windows

-- `sort.Slice`: a sort by a strict order. The library's sort is not stable, and the order of
-- elements that neither way is below makes no difference here: `validate` refuses such lists.
module _ {ℓ} {A : Type ℓ} (below : A → A → Bool) where
  unfoldable pub insert_by : A → List A → List A
  insert_by a [] = a ∷ []
  insert_by a (b ∷ bs) = if below b a then b ∷ insert_by a bs else a ∷ b ∷ bs

  unfoldable pub sort_by : List A → List A
  unfolding insert_by
  sort_by [] = []
  sort_by (a ∷ rest) = insert_by a (sort_by rest)

unfoldable pub tier_below : Tier → Tier → Bool
tier_below s t = ltb_ℤ s.min_input_tokens_exclusive t.min_input_tokens_exclusive

-- a higher priority first, then the smaller id
unfoldable pub window_below : Window → Window → Bool
window_below v w =
    if not (eqb_ℤ v.priority w.priority) then ltb_ℤ w.priority v.priority else text_lt v.id w.id

-- `Spec`, a rule set that is not yet checked, has the fields of `RuleSet`.
abbrev pub Spec : Type 0
Spec = RuleSet

default_accounting : PromptAccounting → PromptAccounting
default_accounting unset = inclusive
default_accounting mode = mode

-- `New`
unfoldable pub build : Spec → Result Fault RuleSet
unfolding default_accounting tier_below window_below sort_by
build spec =
    let rules : RuleSet = record {
      id = spec.id;
      base = spec.base;
      tiers = sort_by tier_below spec.tiers;
      windows = sort_by window_below spec.windows;
      accounting = default_accounting spec.accounting;
    } in
    validate rules >> ok rules

-- `NewRuleSet`
unfoldable pub build_plain : Text → Rates → List Tier → Result Fault RuleSet
unfolding build
build_plain id base tiers =
    build (record { id = id; base = base; tiers = tiers; windows = []; accounting = unset })

-- the loop of `RatesForPromptTotal`
unfoldable pub select_tier : ℤ → List Tier → Rates × ℤ → Rates × ℤ
select_tier prompt [] selected = selected
select_tier prompt (tier ∷ tiers) selected =
    let next = select_tier prompt tiers (tier.rates, tier.min_input_tokens_exclusive) in
    if leb_ℤ prompt tier.min_input_tokens_exclusive then selected else next

unfoldable pub rates_for_prompt_total : RuleSet → ℤ → Rates × ℤ
unfolding select_tier
rates_for_prompt_total r prompt = select_tier prompt r.tiers (r.base, base_tier_threshold)

-- `selected == nil || candidate beats *selected`
unfoldable pub beats : Window → Option Window → Bool
beats candidate none = true
beats candidate (some selected) =
    ltb_ℤ selected.priority candidate.priority
    || (eqb_ℤ candidate.priority selected.priority && text_lt candidate.id selected.id)

-- the loop of `WindowFor`
unfoldable pub select_window : Instant → List Window → Option Window → Option Window
unfolding beats
select_window at [] selected = selected
select_window at (candidate ∷ windows) selected = select_window at windows (
    if not (matches candidate at)
    then selected
    else if beats candidate selected
    then some candidate
    else selected)

unfoldable pub window_for : RuleSet → Instant → Option Window
unfolding select_window
window_for r at = select_window at r.windows none

unfoldable pub window_id : Option Window → Text
window_id none = []
window_id (some w) = w.id

-- the loop of `NextBoundaryAfter`, with the minutes left before the limit
unfoldable pub scan_minutes : RuleSet → Text → ℕ → Instant → Instant
scan_minutes r current zero cursor = 0
scan_minutes r current (suc left) cursor =
    let cursor' = cursor + 60_000_000_000 in
    elim (not (text_eq (window_id (window_for r cursor')) current)) [
      | true ↦ cursor'
      | false ↦ scan_minutes r current left cursor'
    ]

-- the minutes of eight days
abbrev pub boundary_limit : ℕ
boundary_limit = 11_520

unfoldable pub has_no_windows : List Window → Bool
has_no_windows [] = true
has_no_windows (_ ∷ _) = false

unfoldable pub next_boundary_after : RuleSet → Instant → Instant
unfolding has_no_windows
next_boundary_after r at =
    let found =
      scan_minutes r (window_id (window_for r at)) boundary_limit (at - at % 60_000_000_000) in
    if has_no_windows r.windows || at == 0 then 0 else found
