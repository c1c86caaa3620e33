-- ===== src/Pricing/Quote/Exact.antt =====
-- `QuoteAt` on a valid rule set and a usage without negative counts: the exact cost, and its growth
-- with the output tokens.
use native.Mathlib.Nat.{mul-le-mul, le_refl, zero-add}
use muhiya_workspace.Prelude.{
  ℕ, ◌*◌, ◌≤◌, ◌≡◌, refl, false, Option, none, some, List, [], ◌∷◌, Result, ok, err, ◌>>=◌, ◌∙◌,
  ◌<◌, inl, inr, arith, All, In,
}
use muhiya_workspace.Prelude.Int.{ℤ, pos, pos_part, neg_part}
use muhiya_workspace.Prelude.Text.{Text}
use muhiya_workspace.Money
use muhiya_workspace.Money.{NanoUsd}
use muhiya_workspace.Money.Ceil.{ceil_div-IsCeil, ceil_mono, checked}
use muhiya_workspace.Pricing.Usage.{TokenClass, Usage, tokens_for, token_classes, is_negative}
use muhiya_workspace.Pricing.Rates.{Rates, rate_for}
use muhiya_workspace.Pricing.Rates.Inherit
use muhiya_workspace.Pricing.Window.{Window, Instant}
use muhiya_workspace.Pricing.Window.Valid
use muhiya_workspace.Pricing.Fault.{Fault, amount, wrapped}
use muhiya_workspace.Pricing.RuleSet.{RuleSet, Tier, rates_for_prompt_total, window_for}
use muhiya_workspace.Pricing.RuleSet.Valid.{IsSound, IsAscending, AreDistinct, validate-IsSound}
use muhiya_workspace.Pricing.RuleSet.Select.{rates_for_prompt_total_lem}
use muhiya_workspace.Pricing.RuleSet.Governing.{window_for-Governs, Governs}
use muhiya_workspace.Pricing.Quote.{
  PriceLine, Quote, scale_of, price_classes, quote_at, quote_of, with_output,
}
use muhiya_workspace.Pricing.Quote.Total.{
  classes_cost, class_cost, amount_of, price_classes_total, IsUsable, scale_of_usable,
}

ascending_priced :
    (low : ℤ) (tiers : List Tier) (t : Tier)
    → IsAscending low tiers
    → In t tiers
    → Inherit.IsNonNegative t.rates
ascending_priced low [] t h m = absurd m
ascending_priced low (s ∷ tiers) t h (inl e) = rw e h.2
ascending_priced low (s ∷ tiers) t h (inr m) = ascending_priced _ tiers t h.3 m

distinct-IsValid :
    (seen : List Text) (windows : List Window) (w : Window)
    → AreDistinct seen windows
    → In w windows
    → Valid.IsValid w
distinct-IsValid seen [] w h m = absurd m
distinct-IsValid seen (v ∷ windows) w h (inl e) = rw e h.0
distinct-IsValid seen (v ∷ windows) w h (inr m) = distinct-IsValid _ windows w h.2 m

chosen_priced :
    (r : RuleSet) (prompt : ℤ)
    → IsSound r
    → Inherit.IsNonNegative (rates_for_prompt_total r prompt).0
chosen_priced r prompt v = elim (rates_for_prompt_total_lem r prompt v) [
  | inl (e, _) ↦ rw e v.base_ge
  | inr (t, e, (m, _, _)) ↦ rw e (ascending_priced _ r.tiers t v.ascending m)
]

governing-IsUsable :
    (windows : List Window) (at : Instant) (found : Option Window)
    → AreDistinct [] windows
    → Governs at windows found
    → IsUsable found
governing-IsUsable windows at none d g = tt
governing-IsUsable windows at (some w) d (m, _, _) = distinct-IsValid [] windows w d m

nonneg_tokens :
    (usage : Usage)
    → is_negative usage ≡ false
    → All (λ class. neg_part (tokens_for usage class) ≡ 0) token_classes
unfolding is_negative
nonneg_tokens usage h = ground arith

-- The exact cost of a usage under a rule set at an instant, before any limit of the machine.
unfoldable pub exact_cost : RuleSet → Usage → Instant → ℕ
exact_cost r usage at =
    classes_cost (rates_for_prompt_total r usage.prompt_total_tokens).0 (window_for r at) usage
      token_classes

abbrev pub cost_of : Result Fault Quote → Result Fault NanoUsd
cost_of (ok q) = ok q.cost
cost_of (err e) = err e

cost_of-quote :
    (r : RuleSet) (usage : Usage) (at : Instant)
    (priced : Result Money.Error (NanoUsd × List PriceLine))
    → cost_of (wrapped amount priced >>= λ out. ok (quote_of r usage at out))
      ≡ wrapped amount (amount_of priced)
unfolding quote_of
cost_of-quote r usage at (ok out) = refl
cost_of-quote r usage at (err e) = refl

-- On a valid rule set and a usage with no negative count, `QuoteAt` gives the exact cost, which is
-- the sum over the seven classes of tokens * rate * multiplier / 1000000, each rounded up once; it
-- fails only with `overflow`, and exactly when that sum is no `int64`.
pub quote_at_exact :
    (r : RuleSet) (usage : Usage) (at : Instant)
    → IsSound r
    → is_negative usage ≡ false
    → cost_of (quote_at r usage at) ≡ wrapped amount (checked (exact_cost r usage at))
unfolding quote_at exact_cost
quote_at_exact r usage at v h =
    let rates = (rates_for_prompt_total r usage.prompt_total_tokens).0 in
    let window = window_for r at in
    rw ((validate-IsSound r).1 v, h)
      (cost_of-quote r usage at (price_classes rates window usage token_classes (pos 0, []))
        ∙ rw
            (price_classes_total rates window usage (chosen_priced r _ v)
              (governing-IsUsable r.windows at window v.distinct (window_for-Governs r at))
              token_classes 0 [] (nonneg_tokens usage h) (omega arith))
            (rw zero-add))

class_cost_mono :
    (rates : Rates) (window : Option Window) (u v : Usage) (class : TokenClass)
    → IsUsable window
    → pos_part (tokens_for u class) ≤ pos_part (tokens_for v class)
    → class_cost rates window u class ≤ class_cost rates window v class
unfolding class_cost
class_cost_mono rates window u v class usable h =
    let rate = pos_part (rate_for rates class) in
    let num = pos_part (scale_of window class).0 in
    let den = 1_000_000 * pos_part (scale_of window class).1 in
    let den_pos : 0 < den = omega (arith, scale_of_usable window class usable) in
    ceil_mono (pos_part (tokens_for u class) * rate * num)
      (pos_part (tokens_for v class) * rate * num) den _ _ (ceil_div-IsCeil _ den den_pos)
      (ceil_div-IsCeil _ den den_pos) (mul-le-mul (mul-le-mul h (le_refl rate)) (le_refl num))

classes_cost_mono :
    (rates : Rates) (window : Option Window) (u v : Usage) (classes : List TokenClass)
    → IsUsable window
    → All (λ class. pos_part (tokens_for u class) ≤ pos_part (tokens_for v class)) classes
    → classes_cost rates window u classes ≤ classes_cost rates window v classes
unfolding classes_cost
classes_cost_mono rates window u v [] usable h = omega arith
classes_cost_mono rates window u v (class ∷ classes) usable (h, hs) = omega (
  arith,
  class_cost_mono rates window u v class usable h,
  classes_cost_mono rates window u v classes usable hs,
)

-- The exact cost of a usage with a given number of output tokens.
abbrev pub output_cost : RuleSet → Usage → Instant → ℕ → ℕ
output_cost r input at n = exact_cost r (with_output input (pos n)) at

more_output :
    (input : Usage) (m n : ℕ)
    → m ≤ n
    → All
        (λ class.
          pos_part (tokens_for (with_output input (pos m)) class)
          ≤ pos_part (tokens_for (with_output input (pos n)) class))
        token_classes
unfolding tokens_for with_output
more_output input m n h = omega arith

-- On a valid rule set more output tokens never cost less.
pub output_cost_mono :
    (r : RuleSet) (input : Usage) (at : Instant) (m n : ℕ)
    → IsSound r
    → m ≤ n
    → output_cost r input at m ≤ output_cost r input at n
unfolding exact_cost with_output
output_cost_mono r input at m n v h =
    classes_cost_mono (rates_for_prompt_total r input.prompt_total_tokens).0 (window_for r at) _ _
      token_classes
      (governing-IsUsable r.windows at (window_for r at) v.distinct (window_for-Governs r at))
      (more_output input m n h)
