-- ===== src/Handler/Affordable.antt =====
-- What is admitted costs no more than what is available.
use muhiya_workspace.Prelude.{
  ℕ, ◌≤◌, ◌<◌, ◌≡◌, inl, inr, refl, false, some, ok, err, ok-injective, Result-cases, Bool-cases,
  arith,
}
use muhiya_workspace.Prelude.Int.{ℤ, pos, negsuc, ltb_ℤ, leb_ℤ, ◌≤ℤ◌}
use muhiya_workspace.Money
use muhiya_workspace.Pricing.Usage.{Usage, input_usage, is_negative}
use muhiya_workspace.Pricing.Fault.{amount}
use muhiya_workspace.Pricing.Window.{Instant}
use muhiya_workspace.Pricing.RuleSet.{RuleSet}
use muhiya_workspace.Pricing.RuleSet.Valid.{IsSound}
use muhiya_workspace.Pricing.Quote.{Quote, quote_at, with_output, max_output_tokens_at}
use muhiya_workspace.Pricing.Quote.Exact.{output_cost, quote_at_exact}
use muhiya_workspace.Pricing.Quote.Search.{max_output_tokens_at_largest}
use muhiya_workspace.Billing.Store.{Store, Availability, budget_availability}
use muhiya_workspace.Handler.{
  GenerationRequest, Generation, reduced, clamped, affordable_generation,
}

input_nonneg : (n m : ℕ) → is_negative (with_output (input_usage (pos n)) (pos m)) ≡ false
unfolding is_negative input_usage with_output
input_nonneg n m = ground arith

bare_nonneg : (n : ℕ) → is_negative (input_usage (pos n)) ≡ false
unfolding is_negative input_usage
bare_nonneg n = ground arith

-- A quote that is given has the exact cost, which fits.
quoted_cost :
    (r : RuleSet) (n m : ℕ) (at : Instant) {q : Quote}
    → IsSound r
    → quote_at r (with_output (input_usage (pos n)) (pos m)) at ≡ ok q
    → (output_cost r (input_usage (pos n)) at m ≤ 9223372036854775807)
      × (q.cost ≡ pos (output_cost r (input_usage (pos n)) at m))
quoted_cost r n m at {q = q} sound e =
    let exact =
      quote_at_exact r (with_output (input_usage (pos n)) (pos m)) at sound (input_nonneg n m) in
    ground (arith, rw e at exact)

-- What an admitted generation may cost.
abbrev pub IsAffordable : RuleSet → GenerationRequest → ℕ → Generation → Type 0
IsAffordable r g n result =
    (k : ℕ) × (result.allowed ≡ pos k)
    × (pos k ≤ℤ g.requested_output)
    × (result.charge_ceiling ≡ pos (output_cost r (input_usage (pos n)) g.priced_at k))
    × (result.charge_ceiling ≤ℤ result.availability.available)

refused_negative :
    (r : RuleSet) (input : Usage) (m b : ℕ) (at : Instant)
    → max_output_tokens_at r input (pos m) (negsuc b) at ≡ some (err (amount Money.negative))
unfolding max_output_tokens_at
refused_negative r input m b at = ground arith

module _ (r : RuleSet) (g : GenerationRequest) (n m : ℕ) (sound : IsSound r)
    (input : g.input_upper_bound ≡ pos n) (output : g.requested_output ≡ pos m)
    (small : m < 9223372036854775807) where
  reduced-IsAffordable :
      (a : Availability) (k b : ℕ) {result : Generation}
      → a.available ≡ pos b
      → k ≤ m
      → output_cost r (input_usage (pos n)) g.priced_at k ≤ b
      → reduced r g a (pos k) ≡ ok result
      → IsAffordable r g n result × (result.availability ≡ a)
  unfolding reduced
  reduced-IsAffordable a k b {result = result} available le cheap h =
      elim (Result-cases (quote_at r (with_output (input_usage (pos n)) (pos k)) g.priced_at)) [
        | inl (e, failure) ↦ absurd (ground (arith, rw (reduced, input, failure) at h))
        | inr (q, quoted) ↦
            let (fits, cost) = quoted_cost r n k g.priced_at sound quoted in
            rw (← ok-injective (rw (reduced, input, quoted) at h))
              ((k, refl, ground arith, cost, ground arith), refl)
      ]

  clamped-IsAffordable :
      (a : Availability) (available needed : ℤ) {result : Generation}
      → a.available ≡ available
      → output_cost r (input_usage (pos n)) g.priced_at m ≤ 9223372036854775807
      → clamped r g a needed ≡ ok result
      → IsAffordable r g n result × (result.availability ≡ a)
  unfolding clamped
  clamped-IsAffordable a (negsuc b) needed e fits h = absurd (
      ground (
        arith,
        rw (clamped, input, output, e, refused_negative r (input_usage (pos n)) m b g.priced_at) at
            h,
      ))
  clamped-IsAffordable a (pos b) needed e fits h =
      let (k, found, le, afford, _) =
        max_output_tokens_at_largest r (input_usage (pos n)) m b g.priced_at sound (bare_nonneg n)
          small fits in
      elim (Bool-cases (ltb_ℤ (pos k) (pos 1))) [
        | inl none_left ↦
            absurd (ground (arith, rw (clamped, input, output, e, found, none_left) at h))
        | inr some_left ↦
            let cheap : output_cost r (input_usage (pos n)) g.priced_at k ≤ b =
              ground (arith, afford, some_left) in
            reduced-IsAffordable a k b e le cheap
              (rw (clamped, input, output, e, found, some_left) at h)
      ]

-- Whenever a generation is admitted, for a valid rule set, a non-negative bound on the input and a
-- requested output below the largest `int64`: the allowed output is at most the requested one, the
-- charge ceiling is exactly what the input and the allowed output cost, and it is no more than what
-- the user's budgets and top-ups make available.
pub affordable_generation-IsAffordable :
    (r : RuleSet) (s : Store) (g : GenerationRequest) (now : Instant) (n m : ℕ)
    {result : Generation}
    → IsSound r
    → g.input_upper_bound ≡ pos n
    → g.requested_output ≡ pos m
    → m < 9223372036854775807
    → affordable_generation r s g now ≡ ok result
    → IsAffordable r g n result × (budget_availability s g.user_id now ≡ ok result.availability)
unfolding affordable_generation
affordable_generation-IsAffordable r s g now n m {result = result} sound input output small h =
    elim (Result-cases (quote_at r (with_output (input_usage (pos n)) (pos m)) g.priced_at)) [
      | inl (e, failure) ↦
          absurd (ground (arith, rw (affordable_generation, input, output, failure) at h))
      | inr (q, quoted) ↦ elim (Result-cases (budget_availability s g.user_id now)) [
        | inl (e, failure) ↦
            absurd (ground (arith, rw (affordable_generation, input, output, quoted, failure) at h))
        | inr (a, available) ↦
            let (fits, cost) = quoted_cost r n m g.priced_at sound quoted in
            elim (Bool-cases (leb_ℤ q.cost a.available)) [
              | inl within ↦
                  rw
                    (← ok-injective
                      (rw (affordable_generation, input, output, quoted, available, within) at h))
                    ((m, output, ground arith, cost, ground arith), available)
              | inr dear ↦
                  let (affordable, same) =
                    clamped-IsAffordable r g n m sound input output small a a.available q.cost refl
                      fits
                      (rw (affordable_generation, input, output, quoted, available, dear) at h) in
                  (affordable, rw same available)
            ]
      ]
    ]
