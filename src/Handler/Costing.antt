-- ===== src/Handler/Costing.antt =====
-- proxy/handler.go: `setCalculatedCost`, the one place where the counts that an upstream reports
-- become money, and the rules of a model's configuration. The id of the rules is a hash of what they
-- are built from, and an error is described by a text: both are arguments.
pub mod Recorded
use muhiya_workspace.Prelude.{
  not, ◌||◌, Bool, true, Option, none, some, List, [], ◌∷◌, ◌++◌, Result, ok, err, ◌>>=◌,
  if◌then◌else◌, ◌==◌,
}
use muhiya_workspace.Prelude.Int.{ℤ, pos, eqb_ℤ, ◌+64◌}
use muhiya_workspace.Prelude.Text.{Text, codes, is_empty}
use muhiya_workspace.Prelude.Float.{Float}
use muhiya_workspace.Money
use muhiya_workspace.Money.{NanoUsd}
use muhiya_workspace.Money.Legacy.{from_usd, usd}
use muhiya_workspace.Pricing.Usage.{
  ReportedUsage, Usage, PromptAccounting, inclusive, Anomaly, parse_prompt_accounting,
  normalize_usage,
}
use muhiya_workspace.Pricing.Rates.{Rates, TtlRate, overlay_ttl_rates}
use muhiya_workspace.Pricing.Fault.{Fault}
use muhiya_workspace.Pricing.Window.{Window, Instant}
use muhiya_workspace.Pricing.RuleSet.{RuleSet, Tier, build, base_tier_threshold}
use muhiya_workspace.Pricing.Quote.{Quote, PriceLine, quote, quote_at}

pub data CostError : Type 0 where
  model_required : CostError
  rate : Money.Error → CostError
  refused : Fault → CostError

-- one tier with the rates of the cache lifetimes laid over its own
unfoldable pub overlaid : List TtlRate → Tier → Tier
unfolding overlay_ttl_rates
overlaid ttl_rates tier = record tier {
  rates = overlay_ttl_rates tier.rates ttl_rates (some tier.min_input_tokens_exclusive);
}

unfoldable pub overlaid_tiers : List TtlRate → List Tier → List Tier
unfolding overlaid
overlaid_tiers ttl_rates [] = []
overlaid_tiers ttl_rates (tier ∷ tiers) = overlaid ttl_rates tier ∷ overlaid_tiers ttl_rates tiers

unfoldable pub base_rates : NanoUsd → NanoUsd → NanoUsd → NanoUsd → Rates
base_rates input output cache_read cache_write = record {
  input_per_million = input;
  output_per_million = output;
  cache_read_per_million = cache_read;
  cache_write_per_million = cache_write;
  cache_read_5m_per_million = pos 0;
  cache_write_5m_per_million = pos 0;
  cache_write_1h_per_million = pos 0;
}

-- the refusals of the pricing package
unfoldable pub refusing {ℓ} : {A : Type ℓ} → Result Fault A → Result CostError A
refusing (ok value) = ok value
refusing (err fault) = err (refused fault)

module _ (f : Float) where
  open f use {Value, zero, eq}

  -- the fields of `db.Model` that pricing reads; each rate exactly and as a float
  pub record PricedModel : Type 0 where
    pub id : Text
    pub prompt_accounting : Text
    pub input_cost : NanoUsd × Value
    pub output_cost : NanoUsd × Value
    pub cache_read_cost : NanoUsd × Value
    pub cache_write_cost : NanoUsd × Value
    pub pricing_tiers : List Tier
    pub cache_ttl_rates : List TtlRate
    pub price_windows : List Window

  unfoldable pub exact_rate : NanoUsd × Value → Result CostError NanoUsd
  unfolding from_usd
  exact_rate (exact, legacy) =
      if not (eqb_ℤ exact (pos 0)) || eq legacy zero
      then ok exact
      else elim (from_usd f legacy) [ ok amount ↦ ok amount | err e ↦ err (rate e) ]

  -- `setCalculatedCost` reads no accounting where there is no model
  unfoldable pub accounting_of : Option PricedModel → PromptAccounting
  accounting_of none = inclusive
  accounting_of (some model) = parse_prompt_accounting model.prompt_accounting

  -- the fields of `db.RequestLog` that the costing of a request and its outcome read or write
  pub record CostLog : Type 0 where
    pub prompt_accounting : PromptAccounting
    pub usage_anomaly : Anomaly
    pub input_tokens : ℤ
    pub output_tokens : ℤ
    pub cache_read_tokens : ℤ
    pub cache_write_tokens : ℤ
    pub cost : Value
    pub cost_nano_usd : NanoUsd
    pub usage_estimated : Bool
    pub error_message : Text
    pub status_code : ℤ
    pub request_status : Text
    pub pricing_rule_set_id : Text
    pub price_window_id : Text
    pub price_multiplier_num : ℤ
    pub price_multiplier_den : ℤ
    pub pricing_tier_threshold : Option ℤ
    pub priced_at : Option Instant
    pub pricing_lines : List PriceLine

  -- the counts that are recorded
  unfoldable pub with_usage : CostLog → PromptAccounting → Usage × Anomaly → CostLog
  with_usage entry accounting (usage, anomaly) = record entry {
    prompt_accounting = accounting;
    usage_anomaly = anomaly;
    input_tokens = usage.prompt_total_tokens;
    output_tokens = usage.output_tokens;
    cache_read_tokens = usage.cache_read_tokens +64 usage.cache_read_5m_tokens;
    cache_write_tokens =
        usage.cache_write_tokens +64 usage.cache_write_5m_tokens +64 usage.cache_write_1h_tokens;
  }

  unfoldable pub apply_quote_to_log : CostLog → Quote → CostLog
  apply_quote_to_log entry q =
      let receipt = q.receipt in
      record entry {
        cost = usd f q.cost;
        cost_nano_usd = q.cost;
        pricing_rule_set_id = receipt.rule_set_id;
        price_window_id = receipt.window_id;
        price_multiplier_num = receipt.multiplier_num;
        price_multiplier_den = receipt.multiplier_den;
        pricing_tier_threshold =
            if not (eqb_ℤ receipt.tier_threshold base_tier_threshold)
            then some receipt.tier_threshold
            else none;
        priced_at =
            if not (receipt.priced_at == 0) then some receipt.priced_at else entry.priced_at;
        pricing_lines = receipt.lines;
      }

  unfoldable pub pricing_failed : (CostError → Text) → CostLog → CostError → CostLog
  unfolding is_empty
  pricing_failed describe entry e =
      let message = codes "exact pricing failed: " ++ describe e in
      record entry {
        cost = zero;
        cost_nano_usd = pos 0;
        usage_estimated = true;
        error_message =
            if not (is_empty entry.error_message)
            then (entry.error_message ++ (codes "; " ++ message))
            else message;
      }

  module _ (snapshot_id : PricedModel → Rates → List Tier → PromptAccounting → Text) where
    -- the `Spec` of a model, of its four exact rates
    unfoldable pub spec_of : PricedModel → NanoUsd → NanoUsd → NanoUsd → NanoUsd → RuleSet
    unfolding overlay_ttl_rates overlaid_tiers base_rates
    spec_of model input output cache_read cache_write =
        let base = base_rates input output cache_read cache_write in
        let tiers = overlaid_tiers model.cache_ttl_rates model.pricing_tiers in
        let accounting = parse_prompt_accounting model.prompt_accounting in
        record {
          id = snapshot_id model base tiers accounting;
          base = overlay_ttl_rates base model.cache_ttl_rates none;
          tiers = tiers;
          windows = model.price_windows;
          accounting = accounting;
        }

    unfoldable pub pricing_rules_for_model : Option PricedModel → Result CostError RuleSet
    unfolding exact_rate spec_of build
    pricing_rules_for_model none = err model_required
    pricing_rules_for_model (some model) = do
      input ← exact_rate model.input_cost
      output ← exact_rate model.output_cost
      cache_read ← exact_rate model.cache_read_cost
      cache_write ← exact_rate model.cache_write_cost
      refusing (build (spec_of model input output cache_read cache_write))

    -- `rules, err := pricingRulesForModel(model); if err == nil { quote, err = rules.QuoteAt(…) }`
    unfoldable pub quote_for : Option PricedModel → Usage → Instant → Result CostError Quote
    unfolding pricing_rules_for_model
    quote_for model usage at = do
      rules ← pricing_rules_for_model model
      refusing (quote_at rules usage at)

    module _ (describe : CostError → Text) where
      unfoldable pub set_calculated_cost :
          CostLog → Option PricedModel → ReportedUsage → Instant → CostLog
      unfolding accounting_of normalize_usage with_usage quote_for apply_quote_to_log pricing_failed
      set_calculated_cost entry model reported at =
          let normalized = normalize_usage reported (accounting_of model) in
          let counted = with_usage entry (accounting_of model) normalized in
          elim (quote_for model normalized.0 at) [
            | ok q ↦ apply_quote_to_log counted q
            | err e ↦ pricing_failed describe counted e
          ]

    unfoldable pub calculate_cost : Option PricedModel → ℤ → ℤ → ℤ → ℤ → Value
    unfolding pricing_rules_for_model accounting_of normalize_usage quote
    calculate_cost model input output cache_read cache_write =
        let reported : ReportedUsage = record {
          prompt_tokens = input;
          output_tokens = output;
          cache_read_tokens = cache_read;
          cache_read_5m_tokens = pos 0;
          cache_write_tokens = cache_write;
          cache_write_5m_tokens = pos 0;
          cache_write_1h_tokens = pos 0;
        } in
        elim (pricing_rules_for_model model) [
          | err _ ↦ zero
          | ok rules ↦ elim (quote rules (normalize_usage reported (accounting_of model)).0) [
            | err _ ↦ zero
            | ok q ↦ usd f q.cost
          ]
        ]
