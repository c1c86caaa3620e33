-- ===== src/Handler/Costing/Recorded.antt =====
-- What a request's log says about its cost and its counts.
use mathlib.Core.List.{cons-ne-nil}
use muhiya_workspace.Prelude.{
  ◌+◌, ◌≤◌, ◌≡◌, ◌≢◌, ◌⊎◌, inl, inr, refl, arith, true, Option, List, [], ◌∷◌, ◌++◌, not,
  if◌then◌else◌, ok, err, Result, Result-cases, >>=-eq-ok, ◌∙◌,
}
use muhiya_workspace.Prelude.Int.{ℤ, pos, pos_part, neg_part, ◌+64◌}
use muhiya_workspace.Prelude.Text.{Text, is_empty}
use muhiya_workspace.Prelude.Float.{Float}
use muhiya_workspace.Money.Legacy.{usd}
use muhiya_workspace.Pricing.Usage.{ReportedUsage, PromptAccounting, Usage, normalize_usage}
use muhiya_workspace.Pricing.Usage.Canonical.{
  IsBounded, IsCanonical, normalize_usage-IsCanonical, normalize_usage_bounded, ClassesBounded,
  +64_exact,
}
use muhiya_workspace.Pricing.Rates.{Rates}
use muhiya_workspace.Pricing.Fault.{Fault}
use muhiya_workspace.Pricing.Window.{Instant}
use muhiya_workspace.Pricing.RuleSet.{Tier}
use muhiya_workspace.Pricing.Quote.{Quote, quote_at}
use muhiya_workspace.Pricing.Quote.Audit.{line_total, quote_at_audited}
use muhiya_workspace.Handler.Costing.{
  CostError, refusing, PricedModel, CostLog, accounting_of, with_usage, apply_quote_to_log,
  pricing_failed, quote_for, pricing_rules_for_model, set_calculated_cost,
}

refusing_ok {ℓ} : {A : Type ℓ} (r : Result Fault A) {a : A} → refusing r ≡ ok a → r ≡ ok a
unfolding refusing
refusing_ok (ok a) h = cc
refusing_ok (err e) h = cc

joined-ne-nil : (m a b : Text) → b ≢ [] → (if not (is_empty m) then m ++ a else b) ≢ []
unfolding is_empty
joined-ne-nil [] a b h = h
joined-ne-nil (c ∷ m) a b h = cons-ne-nil c (m ++ a)

-- No count of a prompt, its output and its cached tokens is negative, and the cached tokens are part
-- of the prompt.
abbrev pub IsConsistent : ℤ → ℤ → ℤ → ℤ → Type 0
IsConsistent input output read write =
    (neg_part input ≡ 0)
    × (neg_part output ≡ 0)
    × (neg_part read ≡ 0)
    × (neg_part write ≡ 0)
    × (pos_part read + pos_part write ≤ pos_part input)

usage-IsConsistent :
    (u : Usage)
    → IsCanonical u
    → ClassesBounded u
    → IsConsistent u.prompt_total_tokens u.output_tokens
        (u.cache_read_tokens +64 u.cache_read_5m_tokens)
        (u.cache_write_tokens +64 u.cache_write_5m_tokens +64 u.cache_write_1h_tokens)
usage-IsConsistent u c b = ground (
  arith,
  +64_exact u.cache_read_tokens u.cache_read_5m_tokens,
  +64_exact u.cache_write_tokens u.cache_write_5m_tokens,
  +64_exact (u.cache_write_tokens +64 u.cache_write_5m_tokens) u.cache_write_1h_tokens,
)

module _ (f : Float) (snapshot_id : PricedModel f → Rates → List Tier → PromptAccounting → Text)
    (describe : CostError → Text) where
  quote_for_audited :
      (model : Option (PricedModel f)) (reported : ReportedUsage) (at : Instant) {q : Quote}
      → quote_for f snapshot_id model (normalize_usage reported (accounting_of f model)).0 at ≡ ok q
      → q.cost ≡ line_total q.receipt.lines
  unfolding quote_for
  quote_for_audited model reported at {q} h =
      let (rules, _, refused_none) =
        >>=-eq-ok (pricing_rules_for_model f snapshot_id model)
          (λ rules.
            refusing (quote_at rules (normalize_usage reported (accounting_of f model)).0 at))
          h in
      let audited =
        quote_at_audited rules (normalize_usage reported (accounting_of f model)).0 at
          (refusing_ok _ refused_none) in
      audited.0 ∙ audited.1

  message-ne-nil :
      (entry : CostLog f) (e : CostError) → (pricing_failed f describe entry e).error_message ≢ []
  unfolding pricing_failed
  message-ne-nil entry e = joined-ne-nil entry.error_message _ _ (cons-ne-nil b'e' _)

  -- Either the log holds the cost of a quote of the normalised usage, exactly and as a float, and the
  -- recorded price lines add up to it, or it holds no cost,
  -- neither exact nor as a float, is marked as an estimate and says why.
  pub set_calculated_cost_recorded :
      (entry : CostLog f) (model : Option (PricedModel f)) (reported : ReportedUsage) (at : Instant)
      → let after = set_calculated_cost f snapshot_id describe entry model reported at in
        ((q : Quote) × (quote_for f snapshot_id model
              (normalize_usage reported (accounting_of f model)).0
              at
            ≡ ok q)
          × (after.cost_nano_usd ≡ q.cost)
          × (after.cost ≡ usd f q.cost)
          × (after.cost_nano_usd ≡ line_total after.pricing_lines)
          × (after.usage_estimated ≡ entry.usage_estimated))
        ⊎ ((after.cost_nano_usd ≡ pos 0)
            × (after.cost ≡ f.zero)
            × (after.usage_estimated ≡ true)
            × (after.error_message ≢ []))
  unfolding set_calculated_cost apply_quote_to_log with_usage
  set_calculated_cost_recorded entry model reported at =
      elim (Result-cases
        (quote_for f snapshot_id model (normalize_usage reported (accounting_of f model)).0 at)) [
          | inl (e, failed) ↦ inr (
              rw (set_calculated_cost, failed)
                (
                  refl,
                  refl,
                  refl,
                  message-ne-nil
                      (with_usage f entry (accounting_of f model)
                        (normalize_usage reported (accounting_of f model)))
                      e,
                ))
          | inr (q, quoted) ↦ inl (
            q,
            quoted,
            rw (set_calculated_cost, quoted) refl,
            rw (set_calculated_cost, quoted) refl,
            rw (set_calculated_cost, quoted) (quote_for_audited model reported at quoted),
            rw (set_calculated_cost, quoted) refl,
          )
        ]

  -- Where no reported count is above 2^60, the recorded counts are not negative, and the recorded
  -- cached tokens are part of the recorded prompt.
  pub recorded_counts-IsConsistent :
      (entry : CostLog f) (model : Option (PricedModel f)) (reported : ReportedUsage) (at : Instant)
      → IsBounded reported
      → let after = set_calculated_cost f snapshot_id describe entry model reported at in
        IsConsistent after.input_tokens after.output_tokens after.cache_read_tokens
          after.cache_write_tokens
  unfolding set_calculated_cost apply_quote_to_log with_usage
  recorded_counts-IsConsistent entry model reported at b =
      let mode = accounting_of f model in
      let counts =
        usage-IsConsistent (normalize_usage reported mode).0
          (normalize_usage-IsCanonical reported mode b) (normalize_usage_bounded reported mode b) in
      elim (Result-cases (quote_for f snapshot_id model (normalize_usage reported mode).0 at)) [
        | inl (e, failed) ↦ rw (set_calculated_cost, failed) counts
        | inr (q, quoted) ↦ rw (set_calculated_cost, quoted) counts
      ]
