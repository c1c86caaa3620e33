-- ===== src/Tests/Handler.antt =====
-- A user with 10 left asks for a thousand tokens of output.
use muhiya_workspace.Prelude.{◌≡◌, refl, arith, none, [], ◌∷◌, ok}
use muhiya_workspace.Prelude.Int.{pos}
use muhiya_workspace.Prelude.Text.{codes}
use muhiya_workspace.Pricing.RuleSet.{RuleSet}
use muhiya_workspace.Pricing.RuleSet.Valid.{IsSound, validate-IsSound}
use muhiya_workspace.Pricing.Usage.{inclusive}
use muhiya_workspace.Billing.Store.{Store, User, BudgetWindow, budget_availability}
use muhiya_workspace.Handler.{GenerationRequest, Generation, affordable_generation}
use muhiya_workspace.Handler.Affordable.{IsAffordable, affordable_generation-IsAffordable}
use muhiya_workspace.Pricing.Quote.{quote_at, with_output, price_classes, scale_of, quote_of}
use muhiya_workspace.Pricing.RuleSet.{
  validate, validate_tiers, validate_windows, window_for, rates_for_prompt_total,
  accounting_refused, insert_by, select_tier, select_window, sort_by, window_id,
}
use muhiya_workspace.Pricing.Rates.{validate_rates, rate_for, effective_cache_write, first_non_zero}
use muhiya_workspace.Pricing.Usage.{
  is_negative, input_usage, accounting_valid, any_negative, tokens_for,
}
use muhiya_workspace.Money.{cost_for_tokens_scaled, ceil_quotient, add}
use muhiya_workspace.Prelude.Int.{
  rem, ◌*ℤ◌, of_word, quo, to_word, wrap64, ◌+64◌, ◌+ℤ◌, ◌-64◌, ◌-ℤ◌,
}
use muhiya_workspace.Billing.Period.{effective_floor, window_period_start}
use muhiya_workspace.Billing.Store.{
  budget_window_limits, first_row, is_active_topup, is_success, limiting_window, remaining_extra,
  rows, successful_spend_since, total,
}
use muhiya_workspace.Prelude.Text.{is_empty, text_eq}

-- One nano-dollar for a token of input, two for one of output.
abbrev prices : RuleSet
prices = record {
  id = codes "p";
  base = record {
    input_per_million = pos 1_000_000;
    output_per_million = pos 2_000_000;
    cache_read_per_million = pos 0;
    cache_write_per_million = pos 0;
    cache_read_5m_per_million = pos 0;
    cache_write_5m_per_million = pos 0;
    cache_write_1h_per_million = pos 0;
  };
  tiers = [];
  windows = [];
  accounting = inclusive;
}

prices-IsSound : IsSound prices
unfolding validate validate_rates validate_tiers validate_windows is_empty accounting_refused
    accounting_valid
prices-IsSound = (validate-IsSound prices).0 refl

abbrev user : User
user = record {
  id = codes "u";
  plan_id = codes "p";
  status = codes "active";
  plan_assigned_at = 1;
  usage_reset_at = none;
}

abbrev day : BudgetWindow
day = record {
  id = codes "w";
  plan_id = codes "p";
  name = codes "day";
  duration_seconds = pos 86_400;
  budget = pos 10;
}

abbrev store : Store
store = record { users = user ∷ []; topups = []; windows = day ∷ []; logs = [] }

abbrev request : GenerationRequest
request = record {
  user_id = codes "u";
  input_upper_bound = pos 3;
  requested_output = pos 2;
  priced_at = 5;
}

-- Three tokens of input and two of output cost 7 of the 10.
abbrev admitted : Generation
admitted = record {
  allowed = pos 2;
  charge_ceiling = pos 7;
  availability = record {
    available = pos 10;
    window_id = codes "w";
    window_name = codes "day";
    window_started_at = 1;
    window_reset_at = 86_400_000_000_001;
  };
}

runs : affordable_generation prices store request 6 ≡ ok admitted
unfolding affordable_generation budget_availability quote_at validate validate_rates validate_tiers
    validate_windows is_negative with_output input_usage price_classes cost_for_tokens_scaled
    scale_of window_for rate_for rates_for_prompt_total ceil_quotient rem ◌*ℤ◌ effective_floor
    window_period_start budget_window_limits first_row is_active_topup is_success limiting_window
    remaining_extra rows successful_spend_since total add of_word quo to_word wrap64 ◌+64◌ ◌+ℤ◌
    ◌-64◌ ◌-ℤ◌ is_empty text_eq quote_of effective_cache_write first_non_zero accounting_refused
    insert_by select_tier select_window sort_by window_id accounting_valid any_negative tokens_for
runs = refl

affordable_generation-IsAffordable_example :
    IsAffordable prices request 3 admitted
    × (budget_availability store (codes "u") 6 ≡ ok admitted.availability)
affordable_generation-IsAffordable_example =
    affordable_generation-IsAffordable prices store request 6 3 2 prices-IsSound refl refl
      (omega arith) runs
