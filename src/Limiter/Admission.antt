-- ===== src/Limiter/Admission.antt =====
-- The admission check of a virtual key (`CheckLimit`) and its cache of definitions. A query of the
-- database may fail, so the queries are parameters, as is what Redis answers.
pub mod Sound
use muhiya_workspace.Prelude.{
  ℕ, ◌+◌, Bool, true, false, ◌&&◌, Option, none, some, List, [], ◌∷◌, if◌then◌else◌, ltb, Result,
  ok, err,
}
use muhiya_workspace.Prelude.Int.{ℤ, pos, ltb_ℤ, leb_ℤ, eqb_ℤ}
use muhiya_workspace.Prelude.Text.{Text, codes, text_eq}
use muhiya_workspace.Prelude.Assoc
use muhiya_workspace.Billing.Store.{User, BudgetWindow}
use muhiya_workspace.Limiter.Sliding.{
  LimitKind, throughput, budget, suspended, infrastructure, Cause, redis_unavailable,
  redis_malformed, owner_not_found, plan_not_found, inactive, lookup_failed, window_spent,
  rpm_exceeded, tpm_exceeded, CheckError, limited, plain, KeyLimiter, check_in_memory_limits,
  get_limiter,
}

pub record Plan : Type 0 where
  pub id : Text
  pub rpm_limit : ℤ
  pub tpm_limit : ℤ

pub record DefsEntry : Type 0 where
  pub user : User
  pub plan : Plan
  pub windows : List BudgetWindow
  pub expires : ℕ

-- five seconds
abbrev pub defs_ttl : ℕ
defs_ttl = 5_000_000_000

-- `limiterDefsCache.get`, `set`, `delete` and `clear`
unfoldable pub defs_get : Text → ℕ → List (Text × DefsEntry) → Option DefsEntry
unfolding Assoc.lookup
defs_get user_id now entries = elim (Assoc.lookup user_id entries) [
  | none ↦ none
  | some e ↦ if ltb e.expires now then none else some e
]

unfoldable pub defs_set : Text → ℕ → DefsEntry → List (Text × DefsEntry) → List (Text × DefsEntry)
unfolding Assoc.insert
defs_set user_id now e entries =
    Assoc.insert user_id
      (record { user = e.user; plan = e.plan; windows = e.windows; expires = now + defs_ttl })
      entries

unfoldable pub defs_delete : Text → List (Text × DefsEntry) → List (Text × DefsEntry)
unfolding Assoc.erase
defs_delete user_id entries = Assoc.erase user_id entries

abbrev pub defs_clear : List (Text × DefsEntry) → List (Text × DefsEntry)
defs_clear entries = []

-- The queries, each with the text of its error.
pub record Queries : Type 0 where
  pub get_user : Text → Result Text (Option User)
  pub get_plan : Text → Result Text (Option Plan)
  pub list_budget_windows : Text → Result Text (List BudgetWindow)
  pub spending_in_window : Text → ℤ → Result Text ℤ
  pub remaining_extra : Text → Result Text ℤ

-- What the script on Redis answers: an error, no list of three, or its code.
pub data Reply : Type 0 where
  failed malformed : Reply
  code : ℤ → Reply

pub record RateLimiter : Type 0 where
  pub limiters : List (Text × KeyLimiter)
  pub defs : List (Text × DefsEntry)
  pub use_redis : Bool
  pub require_redis : Bool
  pub redis_init_failed : Bool

pub record VirtualKey : Type 0 where
  pub id : Text
  pub user_id : Text

-- The definitions of a user, from the cache or from the database.
unfoldable pub load_definitions :
    Queries
    → ℕ
    → Text
    → List (Text × DefsEntry)
    → List (Text × DefsEntry) × Result CheckError DefsEntry
unfolding defs_get defs_set
load_definitions q now user_id defs = elim (defs_get user_id now defs) [
  | some e ↦ (defs, ok e)
  | none ↦ elim (q.get_user user_id) [
    | err e ↦ (defs, err (plain (lookup_failed e)))
    | ok none ↦ (defs, err (plain owner_not_found))
    | ok (some u) ↦ elim (q.get_plan u.plan_id) [
      | err e ↦ (defs, err (plain (lookup_failed e)))
      | ok none ↦ (defs, err (plain plan_not_found))
      | ok (some p) ↦ elim (q.list_budget_windows p.id) [
        | err e ↦ (defs, err (plain (lookup_failed e)))
        | ok ws ↦
            let entry : DefsEntry = record { user = u; plan = p; windows = ws; expires = 0 } in
            (defs_set user_id now entry defs, ok entry)
      ]
    ]
  ]
]

-- The loop over the budget windows, which stops at the first that is spent.
unfoldable pub spent_window :
    Queries → Text → List BudgetWindow → Result CheckError (Option BudgetWindow)
spent_window q user_id [] = ok none
spent_window q user_id (w ∷ ws) =
    let rest = spent_window q user_id ws in
    if ltb_ℤ (pos 0) w.budget
    then elim (q.spending_in_window user_id w.duration_seconds) [
      | err e ↦ err (plain (lookup_failed e))
      | ok spending ↦ if leb_ℤ w.budget spending then ok (some w) else rest
    ]
    else rest

-- The check of the budget: every window has room, or extra credits remain.
unfoldable pub check_budget : Queries → Text → List BudgetWindow → Option CheckError
unfolding spent_window
check_budget q user_id ws = elim (spent_window q user_id ws) [
  | err e ↦ some e
  | ok none ↦ none
  | ok (some w) ↦ elim (q.remaining_extra user_id) [
    | err e ↦ some (plain (lookup_failed e))
    | ok remaining ↦
        if leb_ℤ remaining (pos 0) then some (limited budget (window_spent w.name)) else none
  ]
]

-- `checkInMemoryLimits` on the map of windows.
unfoldable pub check_key : RateLimiter → ℕ → Text → Plan → ℤ → RateLimiter × Option CheckError
unfolding get_limiter check_in_memory_limits Assoc.insert
check_key rl now key p prompt_tokens =
    let (kl, e) =
      check_in_memory_limits (get_limiter key rl.limiters) now p.rpm_limit p.tpm_limit
        prompt_tokens in
    (
      record {
        limiters = Assoc.insert key kl rl.limiters;
        defs = rl.defs;
        use_redis = rl.use_redis;
        require_redis = rl.require_redis;
        redis_init_failed = rl.redis_init_failed;
      },
      e,
    )

-- `checkRedisLimits`
unfoldable pub check_redis_limits :
    RateLimiter → Reply → ℕ → Text → Plan → ℤ → RateLimiter × Option CheckError
unfolding check_key
check_redis_limits rl failed now key p prompt_tokens =
    if rl.require_redis
    then (rl, some (limited infrastructure redis_unavailable))
    else check_key rl now key p prompt_tokens
check_redis_limits rl malformed now key p prompt_tokens =
    if rl.require_redis
    then (rl, some (limited infrastructure redis_malformed))
    else check_key rl now key p prompt_tokens
check_redis_limits rl (code c) now key p prompt_tokens =
    if eqb_ℤ c (pos 1)
    then (rl, some (limited throughput rpm_exceeded))
    else if eqb_ℤ c (pos 2)
    then (rl, some (limited throughput tpm_exceeded))
    else (rl, none)

unfoldable pub check_limit :
    RateLimiter → Queries → Reply → ℕ → VirtualKey → ℤ → RateLimiter × Option CheckError
unfolding load_definitions check_budget check_redis_limits check_key
check_limit rl q reply now key prompt_tokens =
    if rl.require_redis && rl.redis_init_failed
    then (rl, some (limited infrastructure redis_unavailable))
    else let (defs, loaded) = load_definitions q now key.user_id rl.defs in
      let rl' : RateLimiter = record {
        limiters = rl.limiters;
        defs = defs;
        use_redis = rl.use_redis;
        require_redis = rl.require_redis;
        redis_init_failed = rl.redis_init_failed;
      } in
      elim loaded [
        | err e ↦ (rl', some e)
        | ok d ↦
            if text_eq d.user.status (codes "active")
            then elim (check_budget q d.user.id d.windows) [
              | some e ↦ (rl', some e)
              | none ↦
                  if rl.use_redis
                  then check_redis_limits rl' reply now key.id d.plan prompt_tokens
                  else check_key rl' now key.id d.plan prompt_tokens
            ]
            else (rl', some (limited suspended inactive))
      ]
