-- ===== src/Limiter/Admission/Sound.antt =====
-- What an admission presupposes: an active user whose windows have room or who has extra credits.
use muhiya_workspace.Prelude.{
  ℕ, ◌≡◌, ◌⊎◌, inl, inr, refl, true, false, ◌&&◌, ◌||◌, none, some, List, [], ◌∷◌, if◌then◌else◌,
  ok, Result-cases, Option-cases, Bool-cases, arith, All,
}
use muhiya_workspace.Prelude.Int.{ℤ, pos, ltb_ℤ, leb_ℤ, eqb_ℤ, ◌<ℤ◌}
use muhiya_workspace.Prelude.Text.{Text, codes, text_eq}
use muhiya_workspace.Billing.Store.{BudgetWindow}
use muhiya_workspace.Limiter.Admission.{
  RateLimiter, Queries, Reply, VirtualKey, DefsEntry, Plan, code, failed, malformed,
  load_definitions, spent_window, check_budget, check_key, check_redis_limits, check_limit,
}

-- A window that limits nothing, or whose fresh spending is below its budget.
unfoldable pub HasRoom : Queries → Text → BudgetWindow → Type 0
HasRoom q user_id w =
    (ltb_ℤ (pos 0) w.budget ≡ false)
    ⊎ ((spending : ℤ) × (q.spending_in_window user_id w.duration_seconds ≡ ok spending)
        × (leb_ℤ w.budget spending ≡ false))

spent_window-none :
    (q : Queries) (user_id : Text) (ws : List BudgetWindow)
    → spent_window q user_id ws ≡ ok none
    → All (HasRoom q user_id) ws
unfolding spent_window HasRoom
spent_window-none q user_id [] h = tt
spent_window-none q user_id (w ∷ ws) h = elim (Bool-cases (ltb_ℤ (pos 0) w.budget)) [
  | inr free ↦ (inl free, spent_window-none q user_id ws (rw free at h))
  | inl bounded ↦ elim (Result-cases (q.spending_in_window user_id w.duration_seconds)) [
    | inl (e, failure) ↦ absurd (ground (arith, rw (bounded, failure) at h))
    | inr (spending, found) ↦ elim (Bool-cases (leb_ℤ w.budget spending)) [
      | inl spent ↦ absurd (ground (arith, rw (bounded, found, spent) at h))
      | inr room ↦ (
        inr (spending, found, room),
        spent_window-none q user_id ws (rw (bounded, found, room) at h),
      )
    ]
  ]
]

-- Every window has room, or extra credits remain.
unfoldable pub IsFunded : Queries → Text → List BudgetWindow → Type 0
IsFunded q user_id ws =
    All (HasRoom q user_id) ws
    ⊎ ((remaining : ℤ) × (q.remaining_extra user_id ≡ ok remaining) × (pos 0 <ℤ remaining))

check_budget-none :
    (q : Queries) (user_id : Text) (ws : List BudgetWindow)
    → check_budget q user_id ws ≡ none
    → IsFunded q user_id ws
unfolding check_budget IsFunded
check_budget-none q user_id ws h = elim (Result-cases (spent_window q user_id ws)) [
  | inl (e, failure) ↦ absurd (ground (arith, rw (check_budget, failure) at h))
  | inr (none, room) ↦ inl (spent_window-none q user_id ws room)
  | inr (some w, spent) ↦ elim (Result-cases (q.remaining_extra user_id)) [
    | inl (e, failure) ↦ absurd (ground (arith, rw (check_budget, spent, failure) at h))
    | inr (remaining, found) ↦
        inr (remaining, found, ground (arith, rw (check_budget, spent, found) at h))
  ]
]

-- Redis, where it is used and required, gave an answer, and its limits are not exceeded.
unfoldable pub IsAnswered : RateLimiter → Reply → Type 0
IsAnswered rl failed = (rl.use_redis && rl.require_redis) ≡ false
IsAnswered rl malformed = (rl.use_redis && rl.require_redis) ≡ false
IsAnswered rl (code c) = (rl.use_redis && (eqb_ℤ c (pos 1) || eqb_ℤ c (pos 2))) ≡ false

-- What an admission has checked, with the definitions that it loaded.
pub record IsAdmissible (rl : RateLimiter) (q : Queries) (reply : Reply) (now : ℕ)
    (key : VirtualKey) : Type 0 where
  pub definitions : DefsEntry
  pub loaded : (load_definitions q now key.user_id rl.defs).1 ≡ ok definitions
  pub active : text_eq definitions.user.status (codes "active") ≡ true
  pub funded : IsFunded q definitions.user.id definitions.windows
  pub answered : IsAnswered rl reply
  pub connected : (rl.require_redis && rl.redis_init_failed) ≡ false

IsAnswered_lem :
    (rl rl' : RateLimiter) (reply : Reply) (now : ℕ) (key : Text) (p : Plan) (prompt_tokens : ℤ)
    → rl'.use_redis ≡ rl.use_redis
    → rl'.require_redis ≡ rl.require_redis
    → (if rl.use_redis
        then check_redis_limits rl' reply now key p prompt_tokens
        else check_key rl' now key p prompt_tokens).1
      ≡ none
    → IsAnswered rl reply
unfolding check_redis_limits IsAnswered
IsAnswered_lem rl rl' failed now key p prompt_tokens eu er h = ground (arith, eu, er, h)
IsAnswered_lem rl rl' malformed now key p prompt_tokens eu er h = ground (arith, eu, er, h)
IsAnswered_lem rl rl' (code c) now key p prompt_tokens eu er h = ground (arith, eu, er, h)

-- A request that passes the check is one of an active user, by the definitions loaded from the
-- cache or the database, each of whose windows with a budget has spending, queried at this
-- request, below it, unless extra credits remain; and where Redis is used and required, Redis
-- has answered, and no answer of an exceeded limit is passed over.
pub check_limit-IsAdmissible :
    (rl : RateLimiter) (q : Queries) (reply : Reply) (now : ℕ) (key : VirtualKey)
    (prompt_tokens : ℤ)
    → (check_limit rl q reply now key prompt_tokens).1 ≡ none
    → IsAdmissible rl q reply now key
unfolding check_limit
check_limit-IsAdmissible rl q reply now key prompt_tokens h =
    elim (Bool-cases (rl.require_redis && rl.redis_init_failed)) [
      | inl down ↦ absurd (ground (arith, rw down at h))
      | inr connected ↦ elim (Result-cases (load_definitions q now key.user_id rl.defs).1) [
        | inl (e, failure) ↦ absurd (ground (arith, rw (connected, failure) at h))
        | inr (d, loaded) ↦ elim (Bool-cases (text_eq d.user.status (codes "active"))) [
          | inr suspended ↦ absurd (ground (arith, rw (connected, loaded, suspended) at h))
          | inl active ↦ elim (Option-cases (check_budget q d.user.id d.windows)) [
            | inr (e, failure) ↦
                absurd (ground (arith, rw (connected, loaded, active, failure) at h))
            | inl fine ↦ record {
              definitions = d;
              loaded = loaded;
              active = active;
              funded = check_budget-none q d.user.id d.windows fine;
              answered =
                  IsAnswered_lem rl _ reply now key.id d.plan prompt_tokens refl refl
                    (rw (connected, loaded, active, fine) at h);
              connected = connected;
            }
          ]
        ]
      ]
    ]
