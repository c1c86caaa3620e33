-- ===== src/Tests/Billing.antt =====
-- A user who has spent 90 of a budget of 100 and owns a top-up of 50. Amounts of floats are whole.
use muhiya_workspace.Prelude.{
  some, ◌+◌, ◌*◌, ◌≤◌, ◌<◌, ◌≡◌, ◌⊎◌, ℕ, refl, arith, false, none, [], ◌∷◌, ok, All,
}
use muhiya_workspace.Prelude.Int.{ℤ, pos, pos_part, ltb_ℤ, eqb_ℤ, ◌*ℤ◌, quo, ◌≤ℤ◌, ◌<ℤ◌}
use muhiya_workspace.Prelude.Text.{Text, codes}
use muhiya_workspace.Prelude.Float.{Float}
use muhiya_workspace.Billing.Period.{window_period_start, window_period_contains}
use muhiya_workspace.Billing.Store.{Store, User, Topup, BudgetWindow, Log, is_success}
use muhiya_workspace.Billing.Settle.{
  Entry, settle_usage_and_log, normalize_settled_entry, marginal_charge,
}
use muhiya_workspace.Billing.Reset.{UsageReset, reset_user_usage}
use muhiya_workspace.Billing.Settle.Once.{settle_usage_and_log_once}
use muhiya_workspace.Billing.Settle.Charge.{
  normalize_settled_entry_capped, marginal_charge_covers, AreModest, spent_in, growth_in,
}
use muhiya_workspace.Billing.Legacy.{normalize_usd, exact_or}
use muhiya_workspace.Billing.Settle.{
  request_log_exists, marginal_topup_charge, deduct_from_topups, add_used, charged_topups,
  deduct_loop, deductible, request_status_for_http, topup_order,
}
use muhiya_workspace.Prelude.Text.{text_eq, is_empty, text_lt}
use muhiya_workspace.Billing.Store.{
  user_by_id, first_row, rows, budget_window_limits, is_active_topup, successful_spend_since, total,
}
use muhiya_workspace.Pricing.RuleSet.{sort_by, insert_by}
use muhiya_workspace.Prelude.Int.{◌-64◌, wrap64, ◌-ℤ◌, of_word, to_word, ◌+64◌, ◌+ℤ◌}
use muhiya_workspace.Money.{max, min}
use muhiya_workspace.Billing.Period.{effective_floor}
use muhiya_workspace.Money.Legacy.{from_usd, usd}

abbrev pub whole : Float
whole = record {
  Value = ℤ;
  zero = pos 0;
  is_nan = λ _. false;
  is_inf = λ _. false;
  lt = ltb_ℤ;
  eq = eqb_ℤ;
  mul = ◌*ℤ◌;
  div = quo;
  round = λ x. x;
  of_int64 = λ x. x;
  to_int64 = λ x. x;
}

abbrev user : User
user = record {
  id = codes "u";
  plan_id = codes "p";
  status = codes "active";
  plan_assigned_at = 1;
  usage_reset_at = none;
}

abbrev day : BudgetWindow
day = record {
  id = codes "w";
  plan_id = codes "p";
  name = codes "day";
  duration_seconds = pos 86_400;
  budget = pos 100;
}

abbrev topup : ℤ → Topup
topup used = record {
  id = codes "t";
  user_id = codes "u";
  amount = pos 50;
  used = used;
  created_at = 1;
  expires_at = none;
  deleted_at = none;
}

abbrev log : Text → ℤ → Log
log id cost = record {
  id = id;
  user_id = codes "u";
  status_code = pos 200;
  cost = cost;
  created_at = 7;
}

abbrev store : Store
store = record {
  users = user ∷ [];
  topups = topup (pos 0) ∷ [];
  windows = day ∷ [];
  logs = log (codes "a") (pos 90) ∷ [];
}

-- A request that cost 40, of which 30 were admitted.
abbrev entry : Entry ℤ
entry = record {
  id = codes "b";
  user_id = codes "u";
  status_code = pos 200;
  request_status = [];
  legacy_cost = pos 0;
  cost = pos 40;
  charge_ceiling = pos 30;
  usage_estimated = false;
  error_message = [];
  created_at = 7;
}

-- Twenty of the thirty lie above the budget.
abbrev settled : Store
settled = record {
  users = user ∷ [];
  topups = topup (pos 20) ∷ [];
  windows = day ∷ [];
  logs = log (codes "b") (pos 30) ∷ log (codes "a") (pos 90) ∷ [];
}

settle_runs : settle_usage_and_log whole store entry 8 ≡ ok settled
unfolding settle_usage_and_log normalize_settled_entry normalize_usd request_log_exists text_eq
    is_empty is_success marginal_topup_charge user_by_id first_row rows deduct_from_topups
    budget_window_limits sort_by ◌-64◌ wrap64 ◌-ℤ◌ max exact_or effective_floor window_period_start
    add_used charged_topups deduct_loop deductible marginal_charge request_status_for_http
    topup_order is_active_topup successful_spend_since total from_usd usd min of_word to_word ◌+64◌
    ◌+ℤ◌ text_lt insert_by ◌*ℤ◌ quo
settle_runs = refl

settle_usage_and_log_once_example : settle_usage_and_log whole settled entry 9 ≡ ok settled
settle_usage_and_log_once_example = settle_usage_and_log_once whole store entry 8 9 settle_runs

window_period_contains_example :
    let start = window_period_start 1 (pos 5) 12_000_000_000 in
    (start ≤ 12_000_000_000)
    × (12_000_000_000 < start + 5 * 1_000_000_000)
    × (k : ℕ) × (start ≡ 1 + k * (5 * 1_000_000_000))
window_period_contains_example =
    window_period_contains 1 5 12_000_000_000 (omega arith) (omega arith) (omega arith)
      (omega arith) (omega arith)

-- A failed request that cost 40 costs nothing when it is settled.
abbrev failed_entry : Entry ℤ
failed_entry = record {
  id = codes "c";
  user_id = codes "u";
  status_code = pos 500;
  request_status = codes "failed";
  legacy_cost = pos 0;
  cost = pos 40;
  charge_ceiling = pos 30;
  usage_estimated = false;
  error_message = [];
  created_at = 7;
}

abbrev free_entry : Entry ℤ
free_entry = record {
  id = codes "c";
  user_id = codes "u";
  status_code = pos 500;
  request_status = codes "failed";
  legacy_cost = pos 0;
  cost = pos 0;
  charge_ceiling = pos 30;
  usage_estimated = false;
  error_message = [];
  created_at = 7;
}

failed_runs : normalize_settled_entry whole failed_entry ≡ ok free_entry
unfolding normalize_settled_entry normalize_usd is_empty is_success exact_or usd quo
failed_runs = refl

normalize_settled_entry_capped_example :
    (free_entry.id ≡ failed_entry.id)
    × (free_entry.user_id ≡ failed_entry.user_id)
    × (free_entry.charge_ceiling ≡ failed_entry.charge_ceiling)
    × (((pos 200 ≤ℤ failed_entry.status_code) × (failed_entry.status_code <ℤ pos 300))
        ⊎ ((free_entry.cost ≡ pos 0) × (free_entry.legacy_cost ≡ whole.zero)))
    × ((failed_entry.charge_ceiling ≤ℤ pos 0) ⊎ (free_entry.cost ≤ℤ failed_entry.charge_ceiling))
normalize_settled_entry_capped_example =
    normalize_settled_entry_capped whole failed_entry failed_runs

day-AreModest : AreModest store user (pos 30) 7 (day ∷ [])
unfolding successful_spend_since effective_floor window_period_start rows total is_success text_eq
    ◌+ℤ◌
day-AreModest = (((refl, omega arith), (refl, omega arith)), tt)

marginal_charge_covers_example :
    let charge = marginal_charge store user (pos 30) 7 (day ∷ []) (pos 0) in
    (pos 0 ≤ℤ charge)
    × (charge ≤ℤ pos 30)
    × All (λ w. growth_in store user (pos 30) 7 w ≤ℤ charge) (day ∷ [])
marginal_charge_covers_example =
    marginal_charge_covers store user (pos 30) 7 (day ∷ []) (refl, omega arith) day-AreModest

day_room :
    All
      (λ (w : BudgetWindow). pos_part (spent_in store user (pos 10) 7 w) + 10 ≤ pos_part w.budget)
      (day ∷ [])
unfolding successful_spend_since effective_floor window_period_start rows total is_success text_eq
    ◌+ℤ◌
day_room = (omega arith, tt)

abbrev reset_store : Store
reset_store = record {
  users =
      record {
        id = codes "u";
        plan_id = codes "p";
        status = codes "active";
        plan_assigned_at = 1;
        usage_reset_at = some 9;
      }
      ∷ [];
  topups = topup (pos 0) ∷ [];
  windows = day ∷ [];
  logs = log (codes "a") (pos 90) ∷ [];
}

abbrev reset_row : UsageReset
reset_row = record { scope = codes "user"; user_id = some (codes "u"); note = [] }

reset_runs : reset_user_usage store [] (codes "u") [] 9 ≡ ok (reset_store, reset_row ∷ [])
unfolding reset_user_usage rows text_eq
reset_runs = refl
