-- ===== src/Billing/Settle/Charge.antt =====
-- How much a settled request is charged, and how much of that falls on the top-ups.
use mathlib.Core.Path.{subst}
use muhiya_workspace.Prelude.{
  ◌+◌, ◌≤◌, ◌≡◌, ◌⊎◌, refl, true, false, inl, inr, List, [], ◌∷◌, ok, arith, All, ◌∙◌, sym,
  Bool-cases, >>=-eq-ok, ok-injective,
}
use muhiya_workspace.Prelude.Int.{
  ℤ, pos, pos_part, neg_part, ◌≤ℤ◌, ◌<ℤ◌, ◌-ℤ◌, ◌+64◌, ◌-64◌, +64_lem, -64_lem, +ℤ_parts, -ℤ_parts,
  eq_of_parts, ltb_ℤ,
}
use muhiya_workspace.Prelude.Float.{Float}
use muhiya_workspace.Money
use muhiya_workspace.Billing.Period.{Instant, window_period_start, effective_floor}
use muhiya_workspace.Billing.Legacy.{normalize_usd}
use muhiya_workspace.Billing.Store.{Store, User, BudgetWindow, successful_spend_since, is_success}
use muhiya_workspace.Billing.Settle.{Entry, normalize_settled_entry, marginal_charge}

-- A settled entry keeps its id, user and ceiling, costs exactly nothing, also as a float, unless its
-- status is 2xx, and never costs more than a positive ceiling that was admitted for it.
pub normalize_settled_entry_capped :
    (f : Float) (e : Entry f.Value) {e' : Entry f.Value}
    → normalize_settled_entry f e ≡ ok e'
    → (e'.id ≡ e.id)
      × (e'.user_id ≡ e.user_id)
      × (e'.charge_ceiling ≡ e.charge_ceiling)
      × (((pos 200 ≤ℤ e.status_code) × (e.status_code <ℤ pos 300))
          ⊎ ((e'.cost ≡ pos 0) × (e'.legacy_cost ≡ f.zero)))
      × ((e.charge_ceiling ≤ℤ pos 0) ⊎ (e'.cost ≤ℤ e.charge_ceiling))
unfolding normalize_settled_entry is_success
normalize_settled_entry_capped f e {e' = e'} h =
    let (both, _, made) =
      >>=-eq-ok (normalize_usd f (record { legacy = e.legacy_cost; exact = e.cost })) _ h in
    rw (← ok-injective made) (ground arith)

-- How much of a cost lies above a budget, given what was spent before.
unfoldable pub overage_growth : ℤ → ℤ → ℤ → ℤ
overage_growth spent budget cost =
    Money.max (pos 0) (spent +64 cost -64 budget) -64 Money.max (pos 0) (spent -64 budget)

-- Between 0 and 2^61.
abbrev pub IsModest : ℤ → Type 0
IsModest z = (neg_part z ≡ 0) × (pos_part z ≤ 2305843009213693952)

growth_bounds :
    (spent budget cost : ℤ)
    → IsModest spent
    → IsModest budget
    → IsModest cost
    → (pos 0 ≤ℤ overage_growth spent budget cost) × (overage_growth spent budget cost ≤ℤ cost)
unfolding overage_growth Money.max
growth_bounds spent budget cost hs hb hc = ground (
  arith,
  +64_lem spent cost,
  +ℤ_parts spent cost,
  -64_lem (spent +64 cost) budget,
  -ℤ_parts (spent +64 cost) budget,
  -64_lem spent budget,
  -ℤ_parts spent budget,
  -64_lem (pos 0) (pos 0),
  -64_lem (spent +64 cost -64 budget) (pos 0),
  -ℤ_parts (spent +64 cost -64 budget) (pos 0),
  -64_lem (spent +64 cost -64 budget) (spent -64 budget),
  -ℤ_parts (spent +64 cost -64 budget) (spent -64 budget),
  -64_lem (pos 0) (spent -64 budget),
  -ℤ_parts (pos 0) (spent -64 budget),
  -ℤ_parts (pos 0) (pos 0),
)

growth_none :
    (spent budget cost : ℤ)
    → IsModest spent
    → IsModest budget
    → IsModest cost
    → pos_part spent + pos_part cost ≤ pos_part budget
    → overage_growth spent budget cost ≡ pos 0
unfolding overage_growth Money.max
growth_none spent budget cost hs hb hc room = ground (
  arith,
  +64_lem spent cost,
  +ℤ_parts spent cost,
  -64_lem (spent +64 cost) budget,
  -ℤ_parts (spent +64 cost) budget,
  -64_lem spent budget,
  -ℤ_parts spent budget,
  -64_lem (pos 0) (pos 0),
  -ℤ_parts (pos 0) (pos 0),
  eq_of_parts (pos 0 -ℤ pos 0) (pos 0),
)

module _ (s : Store) (u : User) (cost : ℤ) (created_at : Instant) where
  -- What the user has spent in the period of a window that contains the request.
  abbrev pub spent_in : BudgetWindow → ℤ
  spent_in w = successful_spend_since s u.id (
      effective_floor (window_period_start u.plan_assigned_at w.duration_seconds created_at)
        u.usage_reset_at)

  abbrev pub growth_in : BudgetWindow → ℤ
  growth_in w = overage_growth (spent_in w) w.budget cost

  abbrev pub AreModest : List BudgetWindow → Type 0
  AreModest = All λ (w : BudgetWindow). IsModest (spent_in w) × IsModest w.budget

  -- A charge that starts from `maximum` and covers the windows.
  abbrev Covers : List BudgetWindow → ℤ → ℤ → Type 0
  Covers windows maximum charge =
      (maximum ≤ℤ charge) × (charge ≤ℤ cost) × All (λ w. growth_in w ≤ℤ charge) windows

  charge_more :
      (w : BudgetWindow) (windows : List BudgetWindow) (maximum : ℤ)
      → ltb_ℤ maximum (growth_in w) ≡ true
      → marginal_charge s u cost created_at (w ∷ windows) maximum
        ≡ marginal_charge s u cost created_at windows (growth_in w)
  unfolding marginal_charge overage_growth
  charge_more w windows maximum more = rw more

  charge_less :
      (w : BudgetWindow) (windows : List BudgetWindow) (maximum : ℤ)
      → ltb_ℤ maximum (growth_in w) ≡ false
      → marginal_charge s u cost created_at (w ∷ windows) maximum
        ≡ marginal_charge s u cost created_at windows maximum
  unfolding marginal_charge overage_growth
  charge_less w windows maximum less = rw less

  charge_none : (maximum : ℤ) → marginal_charge s u cost created_at [] maximum ≡ maximum
  unfolding marginal_charge
  charge_none maximum = refl

  marginal_charge_max :
      (windows : List BudgetWindow) (maximum : ℤ)
      → IsModest cost
      → AreModest windows
      → pos 0 ≤ℤ maximum
      → maximum ≤ℤ cost
      → Covers windows maximum (marginal_charge s u cost created_at windows maximum)
  marginal_charge_max [] maximum hc hw low high =
      subst (Covers [] maximum) (sym (charge_none maximum)) (omega arith, high, tt)
  marginal_charge_max (w ∷ windows) maximum hc ((hs, hb), hw) low high =
      let (up, down) = growth_bounds (spent_in w) w.budget cost hs hb hc in
      elim (Bool-cases (ltb_ℤ maximum (growth_in w))) [
        | inl more ↦
            let (above, below, rest) = marginal_charge_max windows (growth_in w) hc hw up down in
            subst (Covers (w ∷ windows) maximum) (sym (charge_more w windows maximum more))
              (ground arith, below, (above, rest))
        | inr less ↦
            let (above, below, rest) = marginal_charge_max windows maximum hc hw low high in
            subst (Covers (w ∷ windows) maximum) (sym (charge_less w windows maximum less))
              (above, below, (ground arith, rest))
      ]

  -- Where the cost, the budgets and what was spent lie between 0 and 2^61, what a request costs the
  -- top-ups is never negative and never more than the request's cost, and it covers the growth of the
  -- overage of every budget window.
  pub marginal_charge_covers :
      (windows : List BudgetWindow)
      → IsModest cost
      → AreModest windows
      → let charge = marginal_charge s u cost created_at windows (pos 0) in
        (pos 0 ≤ℤ charge) × (charge ≤ℤ cost) × All (λ w. growth_in w ≤ℤ charge) windows
  marginal_charge_covers windows hc hw =
      marginal_charge_max windows (pos 0) hc hw (omega arith) (omega arith)

  -- Where the cost, the budgets and what was spent lie between 0 and 2^61, a request whose windows all
  -- have room for its cost takes nothing from the top-ups.
  pub marginal_charge_within :
      (windows : List BudgetWindow)
      → IsModest cost
      → AreModest windows
      → All
          (λ (w : BudgetWindow). pos_part (spent_in w) + pos_part cost ≤ pos_part w.budget)
          windows
      → marginal_charge s u cost created_at windows (pos 0) ≡ pos 0
  marginal_charge_within [] hc hw room = charge_none (pos 0)
  marginal_charge_within (w ∷ windows) hc ((hs, hb), hw) (r, room) =
      let none_over = growth_none (spent_in w) w.budget cost hs hb hc r in
      let stays : ltb_ℤ (pos 0) (growth_in w) ≡ false = rw none_over refl in
      charge_less w windows (pos 0) stays ∙ marginal_charge_within windows hc hw room
