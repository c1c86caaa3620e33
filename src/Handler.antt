-- ===== src/Handler.antt =====
-- proxy/handler.go: the output allowance and the charge ceiling of a request (`affordableGeneration`).
-- The rules of the model come from its configuration and are an argument.
pub mod Affordable
pub mod Costing
pub mod Limits
pub mod Outcome
pub mod Request
use muhiya_workspace.Prelude.{List, [], ◌∷◌, Option, none, some, Result, ok, err, if◌then◌else◌}
use muhiya_workspace.Prelude.Int.{ℤ, pos, ltb_ℤ, leb_ℤ}
use muhiya_workspace.Prelude.Text.{Text}
use muhiya_workspace.Money.{NanoUsd}
use muhiya_workspace.Pricing.Usage.{Usage, input_usage}
use muhiya_workspace.Pricing.Fault.{Fault}
use muhiya_workspace.Pricing.Window.{Instant}
use muhiya_workspace.Pricing.RuleSet.{RuleSet}
use muhiya_workspace.Pricing.Quote.{Quote, quote_at, with_output, max_output_tokens_at}
use muhiya_workspace.Billing.Store.{Store, BillingError, Availability, budget_availability}

-- `out_of_rounds` stands for a search that does not end.
pub data GenerationError : Type 0 where
  pricing : Fault → GenerationError
  billing : BillingError → GenerationError
  budget_exceeded : NanoUsd → NanoUsd → GenerationError
  out_of_rounds : GenerationError

-- `generationQuoteRequest`
pub record GenerationRequest : Type 0 where
  pub user_id : Text
  pub input_upper_bound : ℤ
  pub requested_output : ℤ
  pub priced_at : Instant

pub record Generation : Type 0 where
  pub allowed : ℤ
  pub charge_ceiling : NanoUsd
  pub availability : Availability

-- the quote of the reduced allowance
unfoldable pub reduced :
    RuleSet → GenerationRequest → Availability → ℤ → Result GenerationError Generation
reduced r g a allowed =
    elim (quote_at r (with_output (input_usage g.input_upper_bound) allowed) g.priced_at) [
      | err e ↦ err (pricing e)
      | ok q ↦ ok (record { allowed = allowed; charge_ceiling = q.cost; availability = a })
    ]

-- what is done where the requested output is too dear: `needed` is the cost of its quote
unfoldable pub clamped :
    RuleSet → GenerationRequest → Availability → NanoUsd → Result GenerationError Generation
unfolding reduced
clamped r g a needed =
    elim (max_output_tokens_at r (input_usage g.input_upper_bound) g.requested_output a.available
      g.priced_at) [
        | none ↦ err out_of_rounds
        | some (err e) ↦ err (pricing e)
        | some (ok allowed) ↦
            if ltb_ℤ allowed (pos 1)
            then err (budget_exceeded needed a.available)
            else reduced r g a allowed
      ]

unfoldable pub affordable_generation :
    RuleSet → Store → GenerationRequest → Instant → Result GenerationError Generation
unfolding clamped
affordable_generation r s g now =
    elim (quote_at r (with_output (input_usage g.input_upper_bound) g.requested_output)
      g.priced_at) [
        | err e ↦ err (pricing e)
        | ok q ↦ elim (budget_availability s g.user_id now) [
          | err e ↦ err (billing e)
          | ok a ↦
              if leb_ℤ q.cost a.available
              then ok (record {
                allowed = g.requested_output;
                charge_ceiling = q.cost;
                availability = a;
              })
              else clamped r g a q.cost
        ]
      ]
