-- ===== src/Pricing/Quote.antt =====
-- pricing/pricing.go: the quote of a usage at a pinned instant, and the search for the largest
-- output allowance within a budget.
pub mod Audit
pub mod Total
pub mod Exact
pub mod Search
use muhiya_workspace.Prelude.{
  ℕ, zero, suc, ◌||◌, Option, none, some, List, [], ◌∷◌, ◌++◌, Result, ok, err, ◌>>=◌, ◌>>◌,
  if◌then◌else◌,
}
use muhiya_workspace.Prelude.Int.{ℤ, pos, ltb_ℤ, leb_ℤ, eqb_ℤ, quo, ◌+64◌, ◌-64◌}
use muhiya_workspace.Prelude.Text.{Text}
use muhiya_workspace.Money
use muhiya_workspace.Money.{NanoUsd}
use muhiya_workspace.Pricing.Usage.{
  TokenClass, Usage, PromptAccounting, token_classes, tokens_for, is_negative,
}
use muhiya_workspace.Pricing.Rates.{Rates, rate_for}
use muhiya_workspace.Pricing.Fault.{Fault, amount, refuse_if, wrapped}
use muhiya_workspace.Pricing.Window.{Window, Instant, scale_for}
use muhiya_workspace.Pricing.RuleSet
use muhiya_workspace.Pricing.RuleSet.{RuleSet, rates_for_prompt_total, window_for, window_id}

pub record PriceLine : Type 0 where
  pub class : TokenClass
  pub tokens : ℤ
  pub rate_per_million : NanoUsd
  pub cost : NanoUsd

pub record Receipt : Type 0 where
  pub rule_set_id : Text
  pub priced_at : Instant
  pub tier_threshold : ℤ
  pub window_id : Text
  pub window_label : Text
  pub multiplier_num : ℤ
  pub multiplier_den : ℤ
  pub accounting : PromptAccounting
  pub lines : List PriceLine
  pub total : NanoUsd

pub record Quote : Type 0 where
  pub rule_set_id : Text
  pub rates : Rates
  pub usage : Usage
  pub cost : NanoUsd
  pub receipt : Receipt

-- `num, den := 1, 1; if window != nil { num, den = window.scaleFor(class) }`
unfoldable pub scale_of : Option Window → TokenClass → ℤ × ℤ
scale_of none class = (pos 1, pos 1)
scale_of (some w) class = scale_for w class

abbrev pub price_line : TokenClass → ℤ → NanoUsd → NanoUsd → PriceLine
price_line class tokens rate cost = record {
  class = class;
  tokens = tokens;
  rate_per_million = rate;
  cost = cost;
}

-- The loop over the classes in `QuoteAt`, on the total and the lines so far.
unfoldable pub price_classes :
    Rates
    → Option Window
    → Usage
    → List TokenClass
    → NanoUsd × List PriceLine
    → Result Money.Error (NanoUsd × List PriceLine)
price_classes rates window usage [] (total, lines) = ok (total, lines)
price_classes rates window usage (class ∷ classes) (total, lines) =
    let tokens = tokens_for usage class in
    let rate = rate_for rates class in
    let scale = scale_of window class in
    let skipped = price_classes rates window usage classes (total, lines) in
    let priced : Result Money.Error (NanoUsd × List PriceLine) = (do
      cost ← Money.cost_for_tokens_scaled tokens rate scale.0 scale.1
      total' ← Money.add total cost
      price_classes rates window usage classes
          (total', lines ++ (price_line class tokens rate cost ∷ []))) in
    if eqb_ℤ tokens (pos 0) then skipped else priced

abbrev window_label : Option Window → Text
window_label none = []
window_label (some w) = w.label

abbrev multiplier_num : Option Window → ℤ
multiplier_num none = pos 1
multiplier_num (some w) = w.multiplier_num

abbrev multiplier_den : Option Window → ℤ
multiplier_den none = pos 1
multiplier_den (some w) = w.multiplier_den

-- the quote of a priced list of lines
unfoldable pub quote_of : RuleSet → Usage → Instant → NanoUsd × List PriceLine → Quote
quote_of r usage at (total, lines) =
    let chosen = rates_for_prompt_total r usage.prompt_total_tokens in
    let window = window_for r at in
    record {
      rule_set_id = r.id;
      rates = chosen.0;
      usage = usage;
      cost = total;
      receipt = record {
        rule_set_id = r.id;
        priced_at = at;
        tier_threshold = chosen.1;
        window_id = window_id window;
        window_label = window_label window;
        multiplier_num = multiplier_num window;
        multiplier_den = multiplier_den window;
        accounting = r.accounting;
        lines = lines;
        total = total;
      };
    }

unfoldable pub quote_at : RuleSet → Usage → Instant → Result Fault Quote
unfolding quote_of
quote_at r usage at = do
  RuleSet.validate r
  refuse_if (is_negative usage) (amount Money.negative)
  priced ← wrapped amount (
      price_classes (rates_for_prompt_total r usage.prompt_total_tokens).0 (window_for r at) usage
        token_classes (pos 0, []))
  ok (quote_of r usage at priced)

unfoldable pub quote : RuleSet → Usage → Result Fault Quote
quote r usage = quote_at r usage 0

-- `input.OutputTokens = n`
unfoldable pub with_output : Usage → ℤ → Usage
with_output usage n = record usage { output_tokens = n }

-- The binary search of `MaxOutputTokensAt`; `none` means that the rounds ran out.
unfoldable pub search_output :
    RuleSet → Usage → NanoUsd → Instant → ℕ → ℤ → ℤ → Option (Result Fault ℤ)
search_output r input budget at zero low high = none
search_output r input budget at (suc rounds) low high =
    let mid = low +64 quo (high -64 low +64 pos 1) (pos 2) in
    let raised = search_output r input budget at rounds mid high in
    let lowered = search_output r input budget at rounds low (mid -64 pos 1) in
    let stepped : Option (Result Fault ℤ) = elim (quote_at r (with_output input mid) at) [
      | err e ↦ some (err e)
      | ok q ↦ if leb_ℤ q.cost budget then raised else lowered
    ] in
    if ltb_ℤ low high then stepped else some (ok low)

-- Each round at least halves the interval, which is shorter than 2 ^ 63.
abbrev pub search_rounds : ℕ
search_rounds = 64

unfoldable pub max_output_tokens_at :
    RuleSet → Usage → ℤ → NanoUsd → Instant → Option (Result Fault ℤ)
max_output_tokens_at r input requested budget at =
    let found = search_output r input budget at search_rounds (pos 0) requested in
    let searched : Option (Result Fault ℤ) = elim (quote_at r (with_output input (pos 0)) at) [
      | err e ↦ some (err e)
      | ok base ↦ if ltb_ℤ budget base.cost then some (ok (pos 0)) else found
    ] in
    if ltb_ℤ requested (pos 0) || ltb_ℤ budget (pos 0)
    then some (err (amount Money.negative))
    else searched

unfoldable pub max_output_tokens : RuleSet → Usage → ℤ → NanoUsd → Option (Result Fault ℤ)
max_output_tokens r input requested budget = max_output_tokens_at r input requested budget 0
