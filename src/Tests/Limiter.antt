-- ===== src/Tests/Limiter.antt =====
-- Calls of one key, its owner's admission, and the guard of a generation.
use muhiya_workspace.Prelude.{
  ◌≤◌, ◌≡◌, refl, arith, true, false, none, some, List, [], ◌∷◌, length, ok,
}
use muhiya_workspace.Prelude.Int.{pos, ◌+64◌, wrap64, ◌+ℤ◌}
use muhiya_workspace.Prelude.Text.{codes, text_eq}
use muhiya_workspace.Billing.Store.{User, BudgetWindow}
use muhiya_workspace.Limiter.Sliding.{
  KeyLimiter, check_in_memory_limits, empty_limiter, limited, throughput, rpm_exceeded,
}
use muhiya_workspace.Limiter.Sliding.Rate.{
  Admitted, Run, start, refused, admitted, Respects, admissions_respect_limits,
}
use muhiya_workspace.Limiter.Admission.{Plan, Queries, code, RateLimiter, VirtualKey, check_limit}
use muhiya_workspace.Limiter.Admission.Sound.{IsAdmissible, check_limit-IsAdmissible}
use muhiya_workspace.Limiter.Generation.{
  Guard, Reach, idle, next, acquire, try_in_memory_generation,
}
use muhiya_workspace.Limiter.Generation.Exclusive.{
  running, is_granted, is_idle, generation_exclusive,
}

-- One request and ten tokens a minute: the first call passes, the second does not.
abbrev after_one : KeyLimiter
after_one = record { requests = 5 ∷ []; tokens = record { timestamp = 5; tokens = pos 10 } ∷ [] }

abbrev one_call : List Admitted
one_call = record { instant = 5; prompt = 10 } ∷ []

first_call : check_in_memory_limits empty_limiter 5 (pos 1) (pos 10) (pos 10) ≡ (after_one, none)
unfolding check_in_memory_limits ◌+64◌ wrap64 ◌+ℤ◌
first_call = refl

second_call :
    check_in_memory_limits after_one 6 (pos 1) (pos 10) (pos 10)
    ≡ (after_one, some (limited throughput rpm_exceeded))
unfolding check_in_memory_limits ◌+64◌ wrap64 ◌+ℤ◌
second_call = refl

two_calls : Run 1 10 6 after_one one_call
two_calls =
    refused 5 6 10 after_one after_one one_call (limited throughput rpm_exceeded)
      (admitted 5 5 10 empty_limiter after_one [] (start 5) (omega arith) (omega arith) first_call)
      (omega arith) (omega arith) second_call

admissions_respect_limits_example : Respects 1 10 one_call
admissions_respect_limits_example =
    admissions_respect_limits 1 10 (omega arith) (omega arith) (omega arith) two_calls

abbrev owner : User
owner = record {
  id = codes "u";
  plan_id = codes "p";
  status = codes "active";
  plan_assigned_at = 1;
  usage_reset_at = none;
}

abbrev plan : Plan
plan = record { id = codes "p"; rpm_limit = pos 1; tpm_limit = pos 10 }

abbrev day : BudgetWindow
day = record {
  id = codes "w";
  plan_id = codes "p";
  name = codes "day";
  duration_seconds = pos 86_400;
  budget = pos 100;
}

-- The window is spent, and credits remain.
abbrev queries : Queries
queries = record {
  get_user = λ _. ok (some owner);
  get_plan = λ _. ok (some plan);
  list_budget_windows = λ _. ok (day ∷ []);
  spending_in_window = λ _ _. ok (pos 120);
  remaining_extra = λ _. ok (pos 30);
}

abbrev limiter : RateLimiter
limiter = record {
  limiters = [];
  defs = [];
  use_redis = true;
  require_redis = true;
  redis_init_failed = false;
}

abbrev key : VirtualKey
key = record { id = codes "k"; user_id = codes "u" }

passes : (check_limit limiter queries (code (pos 0)) 5 key (pos 10)).1 ≡ none
unfolding check_limit text_eq
passes = refl

check_limit-IsAdmissible_example : IsAdmissible limiter queries (code (pos 0)) 5 key
check_limit-IsAdmissible_example =
    check_limit-IsAdmissible limiter queries (code (pos 0)) 5 key (pos 10) passes

-- The owner's generation `r` is running.
abbrev busy : Guard
busy = record {
  active = (codes "u", codes "r") ∷ [];
  releases = record { user_id = codes "u"; request_id = codes "r"; once = false } ∷ [];
}

granted :
    try_in_memory_generation (codes "u") (codes "r") (record { active = []; releases = [] })
    ≡ some busy
unfolding try_in_memory_generation
granted = refl

busy-Reach : Reach busy
busy-Reach = next idle (acquire (codes "u") (codes "r") granted)

generation_exclusive_example :
    (length (running (codes "u") busy.releases) ≤ 1)
    × (is_granted (try_in_memory_generation (codes "u") (codes "q") busy)
        ≡ is_idle (running (codes "u") busy.releases))
generation_exclusive_example = generation_exclusive busy-Reach (codes "u") (codes "q")
