-- ===== src/Handler/Limits/Bounded.antt =====
-- What the limits of a request lie between.
use muhiya_workspace.Prelude.{◌+◌, ◌⊎◌, ◌≡◌, inl, inr, arith, Option, none, some}
use muhiya_workspace.Prelude.Int.{ℤ, pos, ◌≤ℤ◌, ◌<ℤ◌}
use muhiya_workspace.Prelude.Text.{Text}
use muhiya_workspace.Handler.Limits.{
  LimitedModel, named_output, bounded_output_limit, requested_openai_output,
  rate_limit_output_estimate, conservative_input_token_bound, serialized_token_estimate,
}

-- What the client asks for: `max_completion_tokens`, where it is absent `max_tokens`, and 0 where both
-- are absent.
abbrev pub IsAsked : Option ℤ → Option ℤ → ℤ → Type 0
IsAsked completion max_tokens asked =
    (completion ≡ some asked)
    ⊎ ((completion ≡ none) × (max_tokens ≡ some asked))
    ⊎ ((completion ≡ none) × (max_tokens ≡ none) × (asked ≡ pos 0))

-- The ceiling of the output is positive, no more than what the client asked for where it asked for
-- something, and no more than the model's own limit where it has one; what is debited from a rate
-- limit is positive and no more than the ceiling.
pub requested_openai_output_bounded :
    (completion max_tokens : Option ℤ) (model : LimitedModel) (asked : ℤ)
    → IsAsked completion max_tokens asked
    → let (limit, named) = requested_openai_output completion max_tokens (some model) in
      (pos 1 ≤ℤ limit)
      × ((asked ≤ℤ pos 0) ⊎ (limit ≤ℤ asked))
      × ((model.max_output_tokens ≤ℤ pos 0) ⊎ (limit ≤ℤ model.max_output_tokens))
      × (pos 1 ≤ℤ rate_limit_output_estimate limit named)
      × (rate_limit_output_estimate limit named ≤ℤ limit)
unfolding requested_openai_output named_output bounded_output_limit rate_limit_output_estimate
requested_openai_output_bounded completion max_tokens model asked (inl h) = ground (arith, h)
requested_openai_output_bounded completion max_tokens model asked (inr (inl (h, k))) =
    ground (arith, h, k)
requested_openai_output_bounded completion max_tokens model asked (inr (inr (h, k, z))) =
    ground (arith, h, k, z)

-- The bound on the input is positive, no more than the model's context window where it has one, and
-- else at least the estimate and 512 more than the estimate from the serialized body.
pub conservative_input_token_bound_bounded :
    (raw_body : Text) (estimated : ℤ) (model : LimitedModel)
    → let bound = conservative_input_token_bound raw_body estimated (some model) in
      (pos 1 ≤ℤ bound)
      × (((pos 0 <ℤ model.context_window) × (bound ≤ℤ model.context_window))
          ⊎ ((estimated ≤ℤ bound) × (pos (serialized_token_estimate raw_body + 512) ≤ℤ bound)))
unfolding conservative_input_token_bound
conservative_input_token_bound_bounded raw_body estimated model = ground arith
