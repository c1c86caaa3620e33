-- ===== src/Handler/Outcome.antt =====
-- proxy/handler.go: the outcome of a streamed request that ends early, the status of a failure, and
-- the answers to a request that is refused.
pub mod Uncharged
use muhiya_workspace.Prelude.{
  Bool, true, false, ◌||◌, Option, none, some, List, [], ◌∷◌, ◌++◌, if◌then◌else◌,
}
use muhiya_workspace.Prelude.Int.{ℤ, pos, eqb_ℤ}
use muhiya_workspace.Prelude.Text.{Text, codes}
use muhiya_workspace.Prelude.Ascii.{to_lower, contains}
use muhiya_workspace.Prelude.Float.{Float}
use muhiya_workspace.Billing.Settle.{request_status_for_http}
use muhiya_workspace.Limiter.Sliding.{
  LimitKind, throughput, budget, suspended, infrastructure, CheckError, kind_of,
}
use muhiya_workspace.Handler.Costing.{CostLog}

-- the error of a request's context, as `errors.Is` tells them apart
pub data RequestError : Type 0 where
  no_error deadline_exceeded canceled other_error : RequestError

pub record StreamResult : Type 0 where
  pub normal_close : Bool
  pub idle_timeout : Bool
  pub request_err : RequestError

pub record RequestFailure : Type 0 where
  pub request_err : RequestError
  pub message : Text
  pub idle_timeout : Bool

abbrev is_deadline : RequestError → Bool
is_deadline deadline_exceeded = true
is_deadline _ = false

abbrev is_canceled : RequestError → Bool
is_canceled canceled = true
is_canceled _ = false

unfoldable pub request_failure_status : RequestFailure → ℤ
unfolding to_lower contains
request_failure_status failure =
    if is_deadline failure.request_err
      || failure.idle_timeout
      || contains (to_lower failure.message) (codes "timeout")
      || contains (to_lower failure.message) (codes "deadline exceeded")
    then pos 504
    else if is_canceled failure.request_err
    then pos 499
    else pos 502

-- the message of a stream that ended early with a status
unfoldable pub stream_message : ℤ → Text
stream_message status =
    if eqb_ℤ status (pos 504)
    then codes "stream timed out before the terminal event"
    else if eqb_ℤ status (pos 499)
    then codes "request cancelled before the terminal event"
    else codes "upstream stream ended before the terminal event"

unfoldable pub stream_failure : StreamResult → RequestFailure
stream_failure result = record {
  request_err = result.request_err;
  message = [];
  idle_timeout = result.idle_timeout;
}

module _ (f : Float) where
  open f use {zero}

  unfoldable pub set_stream_outcome : CostLog f → StreamResult → CostLog f
  unfolding request_failure_status stream_failure stream_message request_status_for_http
  set_stream_outcome entry result =
      let status = request_failure_status (stream_failure result) in
      if result.normal_close
      then record entry {
        status_code = pos 200;
        request_status = request_status_for_http (pos 200);
      }
      else record entry {
        status_code = status;
        error_message = stream_message status;
        request_status = request_status_for_http status;
        cost = zero;
        cost_nano_usd = pos 0;
      }

-- What a client is told: the status, the header `Retry-After`, the type of the error and its message.
pub record Answer : Type 0 where
  pub status : ℤ
  pub retry_after : Option Text
  pub error_type : Text
  pub message : Text

-- `writeLimitError`, of the kind of the refusal and its text
unfoldable pub answer_of : LimitKind → Text → Answer
answer_of infrastructure text = record {
  status = pos 503;
  retry_after = some (codes "2");
  error_type = codes "api_error";
  message = text;
}
answer_of suspended text = record {
  status = pos 403;
  retry_after = none;
  error_type = codes "permission_error";
  message = text;
}
answer_of budget text = record {
  status = pos 429;
  retry_after = none;
  error_type = codes "insufficient_quota";
  message = codes "Budget exhausted: " ++ text;
}
answer_of throughput text = record {
  status = pos 429;
  retry_after = some (codes "60");
  error_type = codes "rate_limit_error";
  message = codes "Limit exceeded: " ++ text;
}

unfoldable pub write_limit_error : CheckError → Text → Answer
unfolding kind_of answer_of
write_limit_error e text = answer_of (kind_of e) text
