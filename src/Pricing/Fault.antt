-- ===== src/Pricing/Fault.antt =====
-- The errors of pricing/: one constructor for each `return err`, and `refuse_if` for the chains of
-- early returns.
use muhiya_workspace.Prelude.{ℕ, Bool, true, false, Result, ok, err}
use muhiya_workspace.Prelude.Text.{Text}
use muhiya_workspace.Money

pub data Fault : Type 0 where
  amount : Money.Error → Fault
  rule_set_id_required unknown_accounting : Fault
  base_rates : Money.Error → Fault
  tier_negative : ℕ → Fault
  tiers_unordered : Fault
  tier_rates : ℕ → Money.Error → Fault
  duplicate_window : Text → Fault
  window_id_required : Fault
  start_out_of_range end_out_of_range ambiguous_minutes weekday_mask_empty : Text → Fault
  denominator_not_positive numerator_negative unknown_class effective_disordered : Text → Fault

-- `if broken { return fault }`
abbrev pub refuse_if : Bool → Fault → Result Fault (Unit {0})
refuse_if true fault = err fault
refuse_if false fault = ok tt

-- `if err != nil { return wrap(err) }`
abbrev pub wrapped {ℓ} :
    {A : Type ℓ} → (Money.Error → Fault) → Result Money.Error A → Result Fault A
wrapped wrap (ok a) = ok a
wrapped wrap (err e) = err (wrap e)
