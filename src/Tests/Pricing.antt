-- ===== src/Tests/Pricing.antt =====
-- A rule set with a tier above 200,000 tokens and a discount window, and usages of it.
use muhiya_workspace.Prelude.{
  ℕ, ◌-◌, ◌%◌, ◌≤◌, ◌<◌, ◌≡◌, ◌↔◌, ◌⊎◌, refl, arith, false, Option, none, some, [], ◌∷◌, ok, err,
  All,
}
use muhiya_workspace.Prelude.Int.{
  ℤ, pos, negsuc, to_word, of_word, quo, rem, wrap64, ◌*ℤ◌, ◌+64◌, ◌+ℤ◌, ◌-64◌, ◌-ℤ◌, max_int64,
}
use muhiya_workspace.Prelude.Text.{codes, is_empty, text_eq, text_lt}
use muhiya_workspace.Money
use muhiya_workspace.Money.Ceil.{checked, ceil_div}
use muhiya_workspace.Pricing.Usage.{
  Usage, ReportedUsage, inclusive, no_anomaly, TokenClass, output, input_fresh, cache_read,
  normalize_usage, is_negative, accounting_valid, any_negative, class_eq, tokens_for,
}
use muhiya_workspace.Pricing.Usage.Canonical.{IsBounded, IsCanonical, normalize_usage-IsCanonical}
use muhiya_workspace.Pricing.Rates.{
  Rates, TtlRate, rate_for, validate_rates, effective_cache_write, first_non_zero,
}
use muhiya_workspace.Pricing.Window.{Window, Instant, applies}
use muhiya_workspace.Pricing.Window
use muhiya_workspace.Pricing.Fault.{amount, wrapped}
use muhiya_workspace.Pricing.RuleSet.{
  RuleSet, Tier, validate, validate_tiers, validate_windows, accounting_refused, beats, is_seen,
  select_tier, select_window, window_for, window_id, has_no_windows, next_boundary_after,
  rates_for_prompt_total,
}
use muhiya_workspace.Pricing.RuleSet.Valid.{IsSound, validate-IsSound}
use muhiya_workspace.Pricing.RuleSet.Select.{IsTierFor, BelowTiers, rates_for_prompt_total_lem}
use muhiya_workspace.Pricing.RuleSet.Governing.{
  Governs, window_for-Governs, IsFirstChange, next_boundary_after_first,
}
use muhiya_workspace.Pricing.Quote.{
  Quote, PriceLine, scale_of, quote_at, quote_of, price_classes, with_output, max_output_tokens_at,
}
use muhiya_workspace.Pricing.Quote.Audit.{line_total, IsDerived, quote_at_audited}
use muhiya_workspace.Pricing.Quote.Exact.{cost_of, exact_cost, output_cost, quote_at_exact}
use muhiya_workspace.Pricing.Quote.Total.{class_cost, classes_cost}
use muhiya_workspace.Pricing.Quote.Search.{
  max_output_tokens_at_largest, max_output_tokens_at_overflow,
}

abbrev base_rates : Rates
base_rates = record {
  input_per_million = pos 3_000_000;
  output_per_million = pos 15_000_000;
  cache_read_per_million = pos 300_000;
  cache_write_per_million = pos 0;
  cache_read_5m_per_million = pos 0;
  cache_write_5m_per_million = pos 0;
  cache_write_1h_per_million = pos 0;
}

abbrev night : Window
night = record {
  id = codes "night";
  label = codes "Night";
  start_minute = pos 1380;
  end_minute = pos 360;
  weekday_mask = pos 127;
  multiplier_num = pos 1;
  multiplier_den = pos 2;
  applies_to = output ∷ [];
  priority = pos 0;
  effective_from = none;
  effective_until = none;
}

abbrev long_prompt : Tier
long_prompt = record { min_input_tokens_exclusive = pos 200_000; rates = base_rates }

abbrev prices : RuleSet
prices = record {
  id = codes "p1";
  base = base_rates;
  tiers = long_prompt ∷ [];
  windows = night ∷ [];
  accounting = inclusive;
}

abbrev usage : Usage
usage = record {
  prompt_total_tokens = pos 1200;
  fresh_input_tokens = pos 1000;
  output_tokens = pos 10;
  cache_read_tokens = pos 200;
  cache_read_5m_tokens = pos 0;
  cache_write_tokens = pos 0;
  cache_write_5m_tokens = pos 0;
  cache_write_1h_tokens = pos 0;
}

-- one in the morning of the second day
abbrev one_o_clock : Instant
one_o_clock = 90_000_000_000_000

prices-IsSound : IsSound prices
unfolding validate validate_rates validate_tiers validate_windows Window.validate Window.valid_class
prices-IsSound = (validate-IsSound prices).0 refl

abbrev line : TokenClass → ℤ → ℤ → ℤ → PriceLine
line class tokens rate cost = record {
  class = class;
  tokens = tokens;
  rate_per_million = rate;
  cost = cost;
}

abbrev quoted : Quote
unfolding quote_of
quoted = quote_of prices usage one_o_clock (
  pos 3135,
  line input_fresh (pos 1000) (pos 3_000_000) (pos 3000)
      ∷ line output (pos 10) (pos 15_000_000) (pos 75)
      ∷ line cache_read (pos 200) (pos 300_000) (pos 60)
      ∷ [],
)

quote_runs : quote_at prices usage one_o_clock ≡ ok quoted
unfolding quote_at validate validate_rates validate_tiers validate_windows Window.validate
    Window.valid_class is_negative price_classes Money.cost_for_tokens_scaled scale_of window_for
    Window.matches to_word Window.scale_for applies rate_for rates_for_prompt_total Money.add
    Money.ceil_quotient of_word quo rem wrap64 ◌*ℤ◌ ◌+64◌ ◌+ℤ◌ ◌-64◌ ◌-ℤ◌ is_empty text_eq text_lt
    quote_of effective_cache_write first_non_zero accounting_refused beats is_seen select_tier
    select_window window_id accounting_valid any_negative class_eq tokens_for Window.covers_minute
    Window.minute_of_day Window.weekday Window.weekday_bit
quote_runs = refl

usage_ge : is_negative usage ≡ false
unfolding is_negative
usage_ge = refl

night_governs : window_for prices one_o_clock ≡ some night
unfolding window_for select_window Window.matches beats to_word
night_governs = refl

has_windows : has_no_windows prices.windows ≡ false
unfolding has_no_windows
has_windows = refl

thousand_fits : output_cost prices usage one_o_clock 1000 ≤ 9223372036854775807
unfolding exact_cost classes_cost class_cost ceil_div tokens_for with_output rate_for
    rates_for_prompt_total scale_of window_for Window.matches to_word Window.scale_for applies
    class_eq
thousand_fits = omega arith

abbrev base_quote : Quote
unfolding quote_of with_output
base_quote = quote_of prices (with_output usage (pos 0)) one_o_clock (
  pos 3060,
  line input_fresh (pos 1000) (pos 3_000_000) (pos 3000)
      ∷ line cache_read (pos 200) (pos 300_000) (pos 60)
      ∷ [],
)

base_runs : quote_at prices (with_output usage (pos 0)) one_o_clock ≡ ok base_quote
unfolding with_output quote_at validate validate_rates validate_tiers validate_windows
    Window.validate Window.valid_class is_negative price_classes Money.cost_for_tokens_scaled
    scale_of window_for Window.matches to_word Window.scale_for applies rate_for
    rates_for_prompt_total Money.add Money.ceil_quotient of_word quo rem wrap64 ◌*ℤ◌ ◌+64◌ ◌+ℤ◌
    ◌-64◌ ◌-ℤ◌ is_empty text_eq text_lt quote_of effective_cache_write first_non_zero
    accounting_refused beats is_seen select_tier select_window window_id accounting_valid
    any_negative class_eq tokens_for Window.covers_minute Window.minute_of_day Window.weekday
    Window.weekday_bit
base_runs = refl

max_output_tokens_at_largest_example :
    (k : ℕ) × (max_output_tokens_at prices usage (pos 1000) (pos 4000) one_o_clock
      ≡ some (ok (pos k)))
    × (k ≤ 1000)
    × ((output_cost prices usage one_o_clock k ≤ 4000)
        ⊎ ((k ≡ 0) × (4000 < output_cost prices usage one_o_clock 0)))
    × ((m : ℕ) → k < m → m ≤ 1000 → 4000 < output_cost prices usage one_o_clock m)
max_output_tokens_at_largest_example =
    max_output_tokens_at_largest prices usage 1000 4000 one_o_clock prices-IsSound usage_ge
      (omega arith) thousand_fits

quote_at_exact_example :
    cost_of (quote_at prices usage one_o_clock)
    ≡ wrapped amount (checked (exact_cost prices usage one_o_clock))
quote_at_exact_example = quote_at_exact prices usage one_o_clock prices-IsSound usage_ge

max_output_tokens_at_overflow_example :
    max_output_tokens_at prices usage max_int64 (pos 4000) one_o_clock
    ≡ some (err (amount Money.negative))
unfolding base_quote
max_output_tokens_at_overflow_example =
    max_output_tokens_at_overflow prices usage 4000 one_o_clock prices-IsSound base_runs
      (omega arith)

quote_at_audited_example :
    (quoted.cost ≡ quoted.receipt.total)
    × (quoted.receipt.total ≡ line_total quoted.receipt.lines)
    × All (IsDerived quoted.rates (window_for prices one_o_clock) usage) quoted.receipt.lines
quote_at_audited_example = quote_at_audited prices usage one_o_clock quote_runs

rates_for_prompt_total_lem_example :
    ((rates_for_prompt_total prices (pos 200_001) ≡ (prices.base, negsuc 0))
      × BelowTiers (pos 200_001) prices.tiers)
    ⊎ ((t : Tier) × (rates_for_prompt_total prices (pos 200_001)
          ≡ (t.rates, t.min_input_tokens_exclusive))
        × IsTierFor (pos 200_001) prices.tiers t)
rates_for_prompt_total_lem_example = rates_for_prompt_total_lem prices (pos 200_001) prices-IsSound

window_for-Governs_example : Governs one_o_clock prices.windows (window_for prices one_o_clock)
window_for-Governs_example = window_for-Governs prices one_o_clock

next_boundary_after_first_example :
    IsFirstChange prices
      (window_id (window_for prices one_o_clock))
      11_520
      (one_o_clock - one_o_clock % 60_000_000_000)
      (next_boundary_after prices one_o_clock)
next_boundary_after_first_example =
    next_boundary_after_first prices one_o_clock has_windows (omega arith)

validate-IsSound_example : (validate prices ≡ ok tt) ↔ IsSound prices
validate-IsSound_example = validate-IsSound prices

-- A report whose prompt is smaller than what was read from the cache.
abbrev contradictory : ReportedUsage
contradictory = record {
  prompt_tokens = pos 100;
  output_tokens = pos 7;
  cache_read_tokens = pos 150;
  cache_read_5m_tokens = pos 0;
  cache_write_tokens = pos 0;
  cache_write_5m_tokens = pos 0;
  cache_write_1h_tokens = pos 0;
}

abbrev plain_report : ReportedUsage
plain_report = record {
  prompt_tokens = pos 400;
  output_tokens = pos 7;
  cache_read_tokens = pos 150;
  cache_read_5m_tokens = pos 0;
  cache_write_tokens = pos 0;
  cache_write_5m_tokens = pos 0;
  cache_write_1h_tokens = pos 0;
}

contradictory-IsBounded : IsBounded contradictory
contradictory-IsBounded = ground arith

normalize_usage-IsCanonical_example : IsCanonical (normalize_usage contradictory inclusive).0
normalize_usage-IsCanonical_example =
    normalize_usage-IsCanonical contradictory inclusive contradictory-IsBounded

no_anomalies : (normalize_usage plain_report inclusive).1 ≡ no_anomaly
unfolding normalize_usage ◌-64◌ wrap64 ◌-ℤ◌ ◌+64◌ ◌+ℤ◌
no_anomalies = refl

abbrev five_minutes : Option ℤ → TtlRate
five_minutes read = record {
  min_input_tokens_exclusive = none;
  ttl = codes "5m";
  cache_read_per_million = read;
  cache_write_per_million = none;
}
