-- ===== src/Billing/Reset.antt =====
-- db/billing.go: the resets of usage, each a transaction with its row of `usage_resets`. The id of
-- the row, which is random, is left out.
use muhiya_workspace.Prelude.{
  ℕ, ◌≡◌, ◌⊎◌, inl, inr, refl, Bool, true, false, Option, none, some, List, [], ◌∷◌, Result, ok,
  err, if◌then◌else◌, length, All, Bool-cases, arith, ◌==◌, ok-injective, ap, suc,
}
use muhiya_workspace.Prelude.Text.{Text, codes, text_eq}
use muhiya_workspace.Billing.Period.{Instant}
use muhiya_workspace.Billing.Store.{Store, User, BillingError, no_rows, rows}

pub record UsageReset : Type 0 where
  pub scope : Text
  pub user_id : Option Text
  pub note : Text

abbrev pub has_user_id : Text → User → Bool
has_user_id user u = text_eq u.id user

-- `UPDATE users SET usage_reset_at = now()`, on the rows that pass the test
unfoldable pub reset_rows : (User → Bool) → Instant → List User → List User
reset_rows test now [] = []
reset_rows test now (u ∷ users) =
    (if test u then record u { usage_reset_at = some now } else u) ∷ reset_rows test now users

-- the store, the table of resets, and the number of users
unfoldable pub reset_all_users_usage :
    Store → List UsageReset → Text → Instant → Store × List UsageReset × ℕ
unfolding reset_rows
reset_all_users_usage s resets note now = (
  record s { users = reset_rows (λ _. true) now s.users },
  record { scope = codes "all"; user_id = none; note = note } ∷ resets,
  length s.users,
)

unfoldable pub reset_user_usage :
    Store → List UsageReset → Text → Text → Instant → Result BillingError (Store × List UsageReset)
unfolding reset_rows
reset_user_usage s resets user note now =
    if length (rows (has_user_id user) s.users) == 0
    then err no_rows
    else ok (
      record s { users = reset_rows (has_user_id user) now s.users },
      record { scope = codes "user"; user_id = some user; note = note } ∷ resets,
    )

reset_rows_lem :
    (user : Text) (now : Instant) (users : List User)
    → All
        (λ (u : User). (text_eq u.id user ≡ false) ⊎ (u.usage_reset_at ≡ some now))
        (reset_rows (has_user_id user) now users)
unfolding reset_rows
reset_rows_lem user now [] = tt
reset_rows_lem user now (u ∷ users) = elim (Bool-cases (text_eq u.id user)) [
  | inl same ↦ rw same (inr refl, reset_rows_lem user now users)
  | inr other ↦ rw other (inl other, reset_rows_lem user now users)
]

-- A reset of a user that succeeds leaves no user of that id with an earlier reset, changes neither
-- the top-ups nor the logs, and adds one row to the resets.
pub reset_user_usage_marks :
    (s : Store) (resets : List UsageReset) (user note : Text) (now : Instant) {s' : Store}
    {resets' : List UsageReset}
    → reset_user_usage s resets user note now ≡ ok (s', resets')
    → All (λ (u : User). (text_eq u.id user ≡ false) ⊎ (u.usage_reset_at ≡ some now)) s'.users
      × (s'.topups ≡ s.topups)
      × (s'.logs ≡ s.logs)
      × (length resets' ≡ suc (length resets))
unfolding reset_user_usage
reset_user_usage_marks s resets user note now {s' = s'} {resets' = resets'} h =
    elim (Bool-cases (length (rows (has_user_id user) s.users) == 0)) [
      | inl missing ↦ absurd (ground (arith, rw (reset_user_usage, missing) at h))
      | inr found ↦
          let made = ok-injective (rw (reset_user_usage, found) at h) in
          rw (← ap (λ p. p.0) made, ← ap (λ p. p.1) made)
            (reset_rows_lem user now s.users, refl, refl, refl)
    ]
