-- ===== src/Billing/Settle.antt =====
-- `SettleUsageAndLog`: a finished request is logged once, its cost is capped by the admitted ceiling,
-- and what exceeds the plan is taken from the top-ups. The transaction runs under the user's lock,
-- so it is one function of the store; a failing database leaves the store as it was.
pub mod Charge
pub mod Once
use muhiya_workspace.Prelude.{
  ℕ, ◌+◌, ◌≤◌, ◌<◌, ◌≡◌, Bool, true, false, not, ◌&&◌, ◌||◌, Option, none, some, List, [], ◌∷◌,
  ◌++◌, Result, ok, err, ◌>>=◌, ◌>>◌, if◌then◌else◌, ltb, leb, ◌==◌,
}
use muhiya_workspace.Prelude.Int.{ℤ, pos, ltb_ℤ, leb_ℤ, eqb_ℤ, ◌+ℤ◌, ◌+64◌, ◌-64◌}
use muhiya_workspace.Prelude.Text.{Text, codes, text_eq, is_empty}
use muhiya_workspace.Prelude.Float.{Float}
use muhiya_workspace.Money
use muhiya_workspace.Money.Legacy.{usd}
use muhiya_workspace.Pricing.RuleSet.{sort_by}
use muhiya_workspace.Billing.Period.{Instant, window_period_start, effective_floor}
use muhiya_workspace.Billing.Legacy
use muhiya_workspace.Billing.Legacy.{LegacyError, normalize_usd}
use muhiya_workspace.Billing.Store.{
  Store, User, Topup, BudgetWindow, Log, BillingError, rows, first_row, is_active_topup, is_success,
  successful_spend_since, budget_window_limits, user_by_id,
}

has_id : Text → List Log → Bool
has_id id [] = false
has_id id (l ∷ logs) = if text_eq l.id id then true else has_id id logs

-- `requestLogExistsTx`
unfoldable pub request_log_exists : Store → Text → Bool
unfolding has_id
request_log_exists s id = has_id id s.logs

unfoldable pub request_status_for_http : ℤ → Text
unfolding is_success
request_status_for_http status =
    if is_success status
    then codes "succeeded"
    else if eqb_ℤ status (pos 402)
    then codes "rejected_budget"
    else if eqb_ℤ status (pos 429)
    then codes "rejected_rate_limit"
    else if eqb_ℤ status (pos 499)
    then codes "cancelled"
    else if eqb_ℤ status (pos 504)
    then codes "timed_out"
    else codes "failed"

-- the fields of `RequestLog` that settlement reads or writes; `legacy_cost` is the float `Cost`
pub record Entry {ℓ} (F : Type ℓ) : Type ℓ where
  pub id : Text
  pub user_id : Text
  pub status_code : ℤ
  pub request_status : Text
  pub legacy_cost : F
  pub cost : ℤ
  pub charge_ceiling : ℤ
  pub usage_estimated : Bool
  pub error_message : Text
  pub created_at : Instant

pub data SettleError : Type 0 where
  legacy : LegacyError → SettleError
  billing : BillingError → SettleError

-- `if entry.ErrorMessage != "" { ... += "; " }; ... += message`
abbrev add_message : Text → Text → Text
add_message old message = if is_empty old then message else (old ++ (codes "; " ++ message))

abbrev capped_message : Text
capped_message =
    codes "provider usage exceeded the affordable request ceiling; customer charge capped"

module _ (f : Float) where
  open f use {Value, zero}

  abbrev zero_unless_success : Entry Value → Entry Value
  zero_unless_success e =
      if is_success e.status_code then e else record e { legacy_cost = zero; cost = pos 0 }

  abbrev with_status : Entry Value → Entry Value
  with_status e =
      if is_empty e.request_status
      then record e { request_status = request_status_for_http e.status_code }
      else e

  abbrev capped : Entry Value → Entry Value
  capped e =
      if ltb_ℤ (pos 0) e.charge_ceiling && ltb_ℤ e.charge_ceiling e.cost
      then record e {
        cost = e.charge_ceiling;
        legacy_cost = usd f e.charge_ceiling;
        usage_estimated = true;
        error_message = add_message e.error_message capped_message;
      }
      else e

  unfoldable pub normalize_settled_entry : Entry Value → Result LegacyError (Entry Value)
  normalize_settled_entry e = do
    both ← normalize_usd f (record { legacy = e.legacy_cost; exact = e.cost })
    let exact = record e { legacy_cost = both.legacy; cost = both.exact }
    ok (capped (with_status (zero_unless_success exact)))

-- The loop of `marginalTopupChargeTx`.
unfoldable pub marginal_charge : Store → User → ℤ → Instant → List BudgetWindow → ℤ → ℤ
marginal_charge s u cost created_at [] maximum = maximum
marginal_charge s u cost created_at (w ∷ windows) maximum =
    let floor =
      effective_floor (window_period_start u.plan_assigned_at w.duration_seconds created_at)
        u.usage_reset_at in
    let spent = successful_spend_since s u.id floor in
    let before = Money.max (pos 0) (spent -64 w.budget) in
    let after = Money.max (pos 0) (spent +64 cost -64 w.budget) in
    let delta = after -64 before in
    marginal_charge s u cost created_at windows (if ltb_ℤ maximum delta then delta else maximum)

unfoldable pub marginal_topup_charge : Store → Text → ℤ → Instant → Result BillingError ℤ
unfolding marginal_charge
marginal_topup_charge s user cost created_at = do
  u ← user_by_id s user
  ok (marginal_charge s u cost created_at (budget_window_limits s u.plan_id) (pos 0))

-- `ORDER BY expires_at ASC NULLS LAST, created_at ASC`
expiry_order : Option Instant → Option Instant → Bool → Bool
expiry_order none none older = older
expiry_order none (some _) older = false
expiry_order (some _) none older = true
expiry_order (some a) (some b) older = ltb a b || (a == b && older)

unfoldable pub topup_order : Topup → Topup → Bool
unfolding expiry_order
topup_order s t = expiry_order s.expires_at t.expires_at (ltb s.created_at t.created_at)

-- `UPDATE user_topups SET used_nano_usd = used_nano_usd + $1 WHERE id = $2`
unfoldable pub add_used : ℤ → Text → List Topup → List Topup
add_used consume id [] = []
add_used consume id (t ∷ table) =
    (if text_eq t.id id then record t { used = t.used +ℤ consume } else t)
    ∷ add_used consume id table

-- The loop of `deductNanoFromTopupsTx` over the selected rows.
unfoldable pub deduct_loop : ℤ → List Topup → List Topup → List Topup
unfolding add_used
deduct_loop remaining [] table = table
deduct_loop remaining (current ∷ selected) table =
    let consume = Money.min remaining (current.amount -64 current.used) in
    let table' = add_used consume current.id table in
    let remaining' = remaining -64 consume in
    let rest = deduct_loop remaining' selected table' in
    if eqb_ℤ remaining' (pos 0) then table' else rest

unfoldable pub deductible : Text → Instant → List Topup → List Topup
unfolding topup_order
deductible user now table = sort_by topup_order (
    rows (λ (t : Topup). text_eq t.user_id user && ltb_ℤ t.used t.amount && is_active_topup now t)
      table)

unfoldable pub deduct_from_topups : ℤ → Text → Instant → List Topup → List Topup
unfolding deduct_loop
deduct_from_topups amount user now table =
    if leb_ℤ amount (pos 0) then table else deduct_loop amount (deductible user now table) table

abbrev of_billing : {A : Type 0} → Result BillingError A → Result SettleError A
of_billing (ok a) = ok a
of_billing (err e) = err (billing e)

abbrev of_legacy : {A : Type 0} → Result LegacyError A → Result SettleError A
of_legacy (ok a) = ok a
of_legacy (err e) = err (legacy e)

-- the top-ups after the charge for an entry
unfoldable pub charged_topups :
    Store → Text → ℤ → Instant → Instant → Result BillingError (List Topup)
charged_topups s user cost created_at now =
    if ltb_ℤ (pos 0) cost
    then (do
      charge ← marginal_topup_charge s user cost created_at
      ok (deduct_from_topups charge user now s.topups))
    else ok s.topups

-- What `SettleUsageAndLog` commits, in a transaction that begins at `now`.
unfoldable pub settle_usage_and_log :
    (f : Float) → Store → Entry f.Value → Instant → Result SettleError Store
unfolding charged_topups
settle_usage_and_log f s entry now = do
  e ← of_legacy (normalize_settled_entry f entry)
  let written : Result SettleError Store = do
    topups ← of_billing (charged_topups s e.user_id e.cost e.created_at now)
    ok (record s {
      topups = topups;
      logs =
          record {
            id = e.id;
            user_id = e.user_id;
            status_code = e.status_code;
            cost = e.cost;
            created_at = e.created_at;
          }
          ∷ s.logs;
    })
  if request_log_exists s e.id then ok s else written
