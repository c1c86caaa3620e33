-- ===== src/Tests/Costing.antt =====
-- A model that costs one nano-dollar for a token of input and two for one of output.
use muhiya_workspace.Prelude.{
  inl, inr, ℕ, ◌≡◌, ◌≢◌, ◌⊎◌, refl, true, false, none, some, List, [], ok, arith,
}
use muhiya_workspace.Prelude.Int.{pos, ◌≤ℤ◌}
use muhiya_workspace.Prelude.Text.{Text, codes}
use muhiya_workspace.Prelude.Ascii.{trim_space}
use muhiya_workspace.Money.Legacy.{usd}
use muhiya_workspace.Pricing.Usage.{
  ReportedUsage, PromptAccounting, inclusive, no_anomaly, normalize_usage,
}
use muhiya_workspace.Pricing.Rates.{Rates}
use muhiya_workspace.Pricing.RuleSet.{Tier}
use muhiya_workspace.Pricing.Quote.{Quote}
use muhiya_workspace.Pricing.Quote.Audit.{line_total}
use muhiya_workspace.Billing.Store.{is_success}
use muhiya_workspace.Handler.Costing.{
  CostError, PricedModel, CostLog, accounting_of, quote_for, set_calculated_cost,
}
use muhiya_workspace.Handler.Costing.Recorded.{set_calculated_cost_recorded}
use muhiya_workspace.Handler.Outcome.{StreamResult, deadline_exceeded, set_stream_outcome}
use muhiya_workspace.Handler.Outcome.Uncharged.{set_stream_outcome_uncharged}
use muhiya_workspace.Handler.Limits.{
  LimitedModel, requested_openai_output, rate_limit_output_estimate,
}
use muhiya_workspace.Handler.Limits.Bounded.{requested_openai_output_bounded}
use muhiya_workspace.Handler.Request.{
  valid_logical_request_id, request_attempt_number, request_correlation_for,
}
use muhiya_workspace.Handler.Request.Correlation.{log_id-injective}
use muhiya_workspace.Tests.Billing.{whole}

abbrev model : PricedModel whole
model = record {
  id = codes "m";
  prompt_accounting = codes "inclusive";
  input_cost = (pos 1_000_000, pos 0);
  output_cost = (pos 2_000_000, pos 0);
  cache_read_cost = (pos 0, pos 0);
  cache_write_cost = (pos 0, pos 0);
  pricing_tiers = [];
  cache_ttl_rates = [];
  price_windows = [];
}

abbrev entry : CostLog whole
entry = record {
  prompt_accounting = inclusive;
  usage_anomaly = no_anomaly;
  input_tokens = pos 0;
  output_tokens = pos 0;
  cache_read_tokens = pos 0;
  cache_write_tokens = pos 0;
  cost = pos 0;
  cost_nano_usd = pos 0;
  usage_estimated = false;
  error_message = [];
  status_code = pos 200;
  request_status = [];
  pricing_rule_set_id = [];
  price_window_id = [];
  price_multiplier_num = pos 1;
  price_multiplier_den = pos 1;
  pricing_tier_threshold = none;
  priced_at = none;
  pricing_lines = [];
}

abbrev reported : ReportedUsage
reported = record {
  prompt_tokens = pos 10;
  output_tokens = pos 5;
  cache_read_tokens = pos 0;
  cache_read_5m_tokens = pos 0;
  cache_write_tokens = pos 0;
  cache_write_5m_tokens = pos 0;
  cache_write_1h_tokens = pos 0;
}

abbrev snapshot : PricedModel whole → Rates → List Tier → PromptAccounting → Text
snapshot m _ _ _ = m.id

abbrev describe : CostError → Text
describe _ = codes "refused"

set_calculated_cost_recorded_example :
    let after = set_calculated_cost whole snapshot describe entry (some model) reported 1 in
    ((q : Quote) × (quote_for whole snapshot
          (some model)
          (normalize_usage reported (accounting_of whole (some model))).0
          1
        ≡ ok q)
      × (after.cost_nano_usd ≡ q.cost)
      × (after.cost ≡ usd whole q.cost)
      × (after.cost_nano_usd ≡ line_total after.pricing_lines)
      × (after.usage_estimated ≡ entry.usage_estimated))
    ⊎ ((after.cost_nano_usd ≡ pos 0)
        × (after.cost ≡ whole.zero)
        × (after.usage_estimated ≡ true)
        × (after.error_message ≢ []))
set_calculated_cost_recorded_example =
    set_calculated_cost_recorded whole snapshot describe entry (some model) reported 1

abbrev late : StreamResult
late = record { normal_close = false; idle_timeout = false; request_err = deadline_exceeded }

set_stream_outcome_uncharged_example :
    let after = set_stream_outcome whole entry late in
    ((late.normal_close ≡ true)
      × (is_success after.status_code ≡ true)
      × (after.request_status ≡ codes "succeeded")
      × (after.cost_nano_usd ≡ entry.cost_nano_usd)
      × (after.cost ≡ entry.cost))
    ⊎ ((late.normal_close ≡ false)
        × (is_success after.status_code ≡ false)
        × (after.request_status ≢ codes "succeeded")
        × (after.cost_nano_usd ≡ pos 0)
        × (after.cost ≡ pos 0))
set_stream_outcome_uncharged_example = set_stream_outcome_uncharged whole entry late

abbrev small_model : LimitedModel
small_model = record {
  max_output_tokens = pos 4096;
  context_window = pos 32768;
  supports_thinking = false;
}

requested_openai_output_bounded_example :
    let (limit, named) = requested_openai_output none (some (pos 9_000)) (some small_model) in
    (pos 1 ≤ℤ limit)
    × ((pos 9_000 ≤ℤ pos 0) ⊎ (limit ≤ℤ pos 9_000))
    × ((small_model.max_output_tokens ≤ℤ pos 0) ⊎ (limit ≤ℤ small_model.max_output_tokens))
    × (pos 1 ≤ℤ rate_limit_output_estimate limit named)
    × (rate_limit_output_estimate limit named ≤ℤ limit)
requested_openai_output_bounded_example =
    requested_openai_output_bounded none (some (pos 9_000)) small_model (pos 9_000)
      (inr (inl (refl, refl)))

abbrev own_text : Text → Text
own_text s = s

one_byte : ◌≢◌ {A = ℕ} b'k' 0
one_byte = omega arith

log_id-injective_example :
    (codes "k" ≡ codes "k")
    × (trim_space (codes "r1 ") ≡ trim_space (codes "r1"))
    × (request_attempt_number (codes "2") ≡ request_attempt_number (codes "2"))
unfolding trim_space valid_logical_request_id request_correlation_for
log_id-injective_example =
    log_id-injective own_text (λ s t h. h) (codes "a") (codes "b") (codes "r1 ") (codes "r1")
      (codes "2") (codes "2") (codes "k") (codes "k") (one_byte, tt) (one_byte, tt) refl refl refl
