-- ===== src/Billing/Store.antt =====
-- The tables that settlement reads and writes, and its queries (db/billing_atomic.go,
-- db/billing.go, db/db.go). The column of used legacy credits, which is a function of the exact
-- used amount, is left out.
use muhiya_workspace.Prelude.{
  ◌+◌, ◌*◌, Bool, true, false, ◌&&◌, ◌||◌, Option, none, some, List, [], ◌∷◌, Result, ok, err,
  ◌>>=◌, if◌then◌else◌, ltb, leb,
}
use muhiya_workspace.Prelude.Int.{
  ℤ, pos, ltb_ℤ, leb_ℤ, eqb_ℤ, ◌+ℤ◌, ◌-ℤ◌, ◌+64◌, ◌-64◌, pos_part, max_int64,
}
use muhiya_workspace.Prelude.Text.{Text, codes, text_eq, text_lt}
use muhiya_workspace.Billing.Period.{Instant, window_period_start, effective_floor}
use muhiya_workspace.Pricing.RuleSet.{sort_by}

pub record User : Type 0 where
  pub id : Text
  pub plan_id : Text
  pub status : Text
  pub plan_assigned_at : Instant
  pub usage_reset_at : Option Instant

pub record Topup : Type 0 where
  pub id : Text
  pub user_id : Text
  pub amount : ℤ
  pub used : ℤ
  pub created_at : Instant
  pub expires_at : Option Instant
  pub deleted_at : Option Instant

-- `budget_windows`
pub record BudgetWindow : Type 0 where
  pub id : Text
  pub plan_id : Text
  pub name : Text
  pub duration_seconds : ℤ
  pub budget : ℤ

-- the columns of `request_logs` that billing reads
pub record Log : Type 0 where
  pub id : Text
  pub user_id : Text
  pub status_code : ℤ
  pub cost : ℤ
  pub created_at : Instant

pub record Store : Type 0 where
  pub users : List User
  pub topups : List Topup
  pub windows : List BudgetWindow
  pub logs : List Log

pub data BillingError : Type 0 where
  no_rows no_budget_window negative : BillingError

module _ {A : Type 0} where
  -- `WHERE`
  unfoldable pub rows : (A → Bool) → List A → List A
  rows test [] = []
  rows test (a ∷ xs) = if test a then a ∷ rows test xs else rows test xs

  -- `SUM`, over the integers
  unfoldable pub total : (A → ℤ) → List A → ℤ
  total value [] = pos 0
  total value (a ∷ xs) = value a +ℤ total value xs

  -- the one row of `QueryRow`
  unfoldable pub first_row : List A → Result BillingError A
  first_row [] = err no_rows
  first_row (a ∷ _) = ok a

-- `activeTopupFilter`
unfoldable pub is_active_topup : Instant → Topup → Bool
is_active_topup now t = elim t.deleted_at [
  | some _ ↦ false
  | none ↦ elim t.expires_at [ none ↦ true | some expires ↦ ltb now expires ]
]

unfoldable pub is_success : ℤ → Bool
is_success status = leb_ℤ (pos 200) status && ltb_ℤ status (pos 300)

-- `successfulSpendSinceTx`
unfoldable pub successful_spend_since : Store → Text → Instant → ℤ
successful_spend_since s user floor =
    total (λ (l : Log). l.cost)
      (rows
        (λ (l : Log). text_eq l.user_id user && leb floor l.created_at && is_success l.status_code)
        s.logs)

window_order : BudgetWindow → BudgetWindow → Bool
window_order v w =
    ltb_ℤ v.duration_seconds w.duration_seconds
    || (eqb_ℤ v.duration_seconds w.duration_seconds && text_lt v.id w.id)

-- `budgetWindowLimitsTx`
unfoldable pub budget_window_limits : Store → Text → List BudgetWindow
unfolding window_order
budget_window_limits s plan = sort_by window_order (
    rows
      (λ (w : BudgetWindow).
        text_eq w.plan_id plan && ltb_ℤ (pos 0) w.duration_seconds && ltb_ℤ (pos 0) w.budget)
      s.windows)

-- `GetRemainingExtraNanoUSD`, and the sum of `budgetAvailabilityTx`
unfoldable pub remaining_extra : Store → Text → Instant → ℤ
remaining_extra s user now =
    total (λ (t : Topup). t.amount -ℤ t.used)
      (rows (λ (t : Topup). text_eq t.user_id user && is_active_topup now t) s.topups)

unfoldable pub user_by_id : Store → Text → Result BillingError User
user_by_id s user = first_row (rows (λ (u : User). text_eq u.id user) s.users)

pub record Availability : Type 0 where
  pub available : ℤ
  pub window_id : Text
  pub window_name : Text
  pub window_started_at : Instant
  pub window_reset_at : Instant

-- The loop of `budgetAvailabilityTx`, with the instant of a window's start and its spending.
unfoldable pub limiting_window :
    Store → User → ℤ → Instant → List BudgetWindow → Availability → Availability
limiting_window s u topups now [] result = result
limiting_window s u topups now (w ∷ windows) result =
    let period_start = window_period_start u.plan_assigned_at w.duration_seconds now in
    let started_at = effective_floor period_start u.usage_reset_at in
    let left = w.budget -64 successful_spend_since s u.id started_at +64 topups in
    let candidate = if ltb_ℤ left (pos 0) then pos 0 else left in
    limiting_window s u topups now windows (
      if ltb_ℤ candidate result.available
      then record {
        available = candidate;
        window_id = w.id;
        window_name = w.name;
        window_started_at = started_at;
        window_reset_at = period_start + pos_part w.duration_seconds * 1_000_000_000;
      }
      else result)

unlimited : Availability
unlimited = record {
  available = max_int64;
  window_id = [];
  window_name = [];
  window_started_at = 0;
  window_reset_at = 0;
}

-- `budgetAvailabilityTx`
unfoldable pub budget_availability : Store → Text → Instant → Result BillingError Availability
unfolding unlimited
budget_availability s user now = do
  u ←
      first_row
        (rows (λ (u : User). text_eq u.id user && text_eq u.status (codes "active")) s.users)
  let windows = budget_window_limits s u.plan_id
  elim windows [
    | [] ↦ err no_budget_window
    | w ∷ ws ↦ ok (limiting_window s u (remaining_extra s user now) now (w ∷ ws) unlimited)
  ]
