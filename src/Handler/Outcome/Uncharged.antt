-- ===== src/Handler/Outcome/Uncharged.antt =====
-- A streamed request is charged only where it ended normally.
use muhiya_workspace.Prelude.{◌≡◌, ◌≢◌, ◌⊎◌, inl, inr, refl, true, false, arith, Bool-cases}
use muhiya_workspace.Prelude.Int.{pos}
use muhiya_workspace.Prelude.Text.{codes}
use muhiya_workspace.Prelude.Float.{Float}
use muhiya_workspace.Billing.Store.{is_success}
use muhiya_workspace.Billing.Settle.{request_status_for_http}
use muhiya_workspace.Handler.Costing.{CostLog}
use muhiya_workspace.Handler.Outcome.{
  StreamResult, RequestFailure, request_failure_status, stream_failure, set_stream_outcome,
}

failure_unsuccessful :
    (failure : RequestFailure)
    → (is_success (request_failure_status failure) ≡ false)
      × (request_status_for_http (request_failure_status failure) ≢ codes "succeeded")
unfolding request_failure_status request_status_for_http is_success
failure_unsuccessful failure = ground arith

module _ (f : Float) where
  open f use {zero}

  -- A stream that ends normally succeeds at the cost that was recorded; any other is recorded with a
  -- status that does not count as a success, as no success, and at no cost.
  pub set_stream_outcome_uncharged :
      (entry : CostLog f) (result : StreamResult)
      → let after = set_stream_outcome f entry result in
        ((result.normal_close ≡ true)
          × (is_success after.status_code ≡ true)
          × (after.request_status ≡ codes "succeeded")
          × (after.cost_nano_usd ≡ entry.cost_nano_usd)
          × (after.cost ≡ entry.cost))
        ⊎ ((result.normal_close ≡ false)
            × (is_success after.status_code ≡ false)
            × (after.request_status ≢ codes "succeeded")
            × (after.cost_nano_usd ≡ pos 0)
            × (after.cost ≡ zero))
  unfolding set_stream_outcome request_status_for_http is_success
  set_stream_outcome_uncharged entry result = elim (Bool-cases result.normal_close) [
    | inl normal ↦ inl (normal, rw normal refl, rw normal refl, rw normal refl, rw normal refl)
    | inr early ↦
        let unsuccessful = failure_unsuccessful (stream_failure result) in
        inr (early, rw early unsuccessful.0, rw early unsuccessful.1, rw early refl, rw early refl)
  ]
