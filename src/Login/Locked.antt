-- ===== src/Login/Locked.antt =====
-- A source that is locked out, and the operations of the throttle that leave it so.
use muhiya_workspace.Prelude.{
  length, ℕ, ◌+◌, ◌-◌, ◌≤◌, ◌<◌, ◌≡◌, ◌⊎◌, inl, inr, refl, ◌∙◌, Bool, true, false, some, List, [],
  ◌∷◌, arith, Bool-cases, if◌then◌else◌, ltb, leb,
}
use muhiya_workspace.Prelude.Text.{Text, text_eq, eq_of_text_eq}
use muhiya_workspace.Prelude.Assoc
use muhiya_workspace.Prelude.Assoc.{lookup-insert, lookup-insert_self, lookup-erase}
use muhiya_workspace.Login.{
  login_lock_duration, login_bucket_idle_ttl, LoginBucket, Throttle, too_many_requests,
  prune_buckets, prune_login_throttle_locked, is_locked, login_throttle_guard, failed_bucket,
  login_throttle_fail, login_throttle_success, refuse,
}

-- The source is locked until a time, which is at most the duration of a lock after its last failure.
pub Locked : Text → ℕ → Throttle → Type 0
Locked source until st =
    (b : LoginBucket) × (Assoc.lookup source st.buckets ≡ some b)
    × (b.locked_until ≡ until)
    × (until ≤ b.last_fail + login_lock_duration)

lookup-prune :
    (now : ℕ) (k : Text) (m : List (Text × LoginBucket)) (b : LoginBucket)
    → Assoc.lookup k m ≡ some b
    → ltb login_bucket_idle_ttl (now - b.last_fail) ≡ false
    → Assoc.lookup k (prune_buckets now m) ≡ some b
unfolding Assoc.lookup prune_buckets
lookup-prune now k [] b h active = cc
lookup-prune now k ((j, c) ∷ m) b h active = elim (Bool-cases (text_eq j k)) [
  | inl same ↦ ground (arith, h, same, active)
  | inr other ↦ ground (arith, h, other, lookup-prune now k m b)
]

prune-Locked :
    (source : Text) (until now : ℕ) (st : Throttle)
    → now < until
    → Locked source until st
    → Locked source until (prune_login_throttle_locked now st)
unfolding Locked prune_login_throttle_locked
prune-Locked source until now st early (b, found, lock, short) =
    elim (Bool-cases (leb (length st.buckets) 4096)) [
      | inl few ↦ rw few (b, found, lock, short)
      | inr many ↦ rw many (
        b,
        lookup-prune now source st.buckets b found (ground (arith, early, short)),
        lock,
        short,
      )
    ]

guard-Locked :
    (source other : Text) (until now : ℕ) (st : Throttle)
    → now < until
    → Locked source until st
    → Locked source until (login_throttle_guard now other st).0
unfolding login_throttle_guard
guard-Locked source other until now st early h =
    if_first _ _ _ (prune-Locked source until now st early h)
      (prune-Locked source until now st early h)
  where
    if_first :
        (c : Bool) (x y : Throttle × Bool × ℕ)
        → Locked source until x.0
        → Locked source until y.0
        → Locked source until (if c then x else y).0
    if_first true x y hx hy = hx
    if_first false x y hx hy = hy

guard-blocks :
    (source : Text) (until now : ℕ) (st : Throttle)
    → now < until
    → Locked source until st
    → (login_throttle_guard now source st).1 ≡ false
unfolding Locked login_throttle_guard is_locked
guard-blocks source until now st early h =
    let (b, found, lock, _) = prune-Locked source until now st early h in
    rw found (ground (arith, lock, early))

fail-Locked :
    (source other : Text) (until now : ℕ) (st : Throttle)
    → text_eq other source ≡ false
    → Locked source until st
    → Locked source until (login_throttle_fail now other st)
unfolding Locked login_throttle_fail
fail-Locked source other until now st apart (b, found, lock, short) =
    (b, lookup-insert other source _ st.buckets ∙ rw apart found, lock, short)

success-Locked :
    (source other : Text) (until : ℕ) (st : Throttle)
    → text_eq other source ≡ false
    → Locked source until st
    → Locked source until (login_throttle_success other st)
unfolding Locked login_throttle_success
success-Locked source other until st apart (b, found, lock, short) =
    (b, lookup-erase other source st.buckets ∙ rw apart found, lock, short)

pub refuse-Locked :
    (source other : Text) (until now later : ℕ) (st : Throttle)
    → now < until
    → Locked source until st
    → Locked source until (refuse now later other st).0
unfolding refuse
refuse-Locked source other until now later st early h = elim (Bool-cases (text_eq other source)) [
  | inl same ↦
      let e = eq_of_text_eq other source same in
      rw (e, guard-blocks source until now st early h)
        (guard-Locked source source until now st early h)
  | inr apart ↦ elim (Bool-cases (login_throttle_guard now other st).1) [
    | inl proceeds ↦ rw proceeds (
        fail-Locked source other until later _ apart
          (guard-Locked source other until now st early h))
    | inr blocked ↦ rw blocked (guard-Locked source other until now st early h)
  ]
]

pub accepted-Locked :
    (source other : Text) (until : ℕ) (st : Throttle) (right : Bool)
    → (text_eq other source ≡ false) ⊎ (right ≡ false)
    → right ≡ true
    → Locked source until st
    → Locked source until (login_throttle_success other st)
accepted-Locked source other until st right who accepted h =
    success-Locked source other until st (ground (arith, who, accepted)) h

pub refuse-blocks :
    (source : Text) (until now later : ℕ) (st : Throttle)
    → now < until
    → Locked source until st
    → (refuse now later source st).1 ≡ too_many_requests
unfolding refuse
refuse-blocks source until now later st early h = rw (guard-blocks source until now st early h) refl

pub tenth-Locked :
    (source : Text) (b : LoginBucket) (at : ℕ) (st : Throttle)
    → Assoc.lookup source st.buckets ≡ some b
    → b.fails ≡ 9
    → Locked source (at + login_lock_duration) (login_throttle_fail at source st)
unfolding Locked login_throttle_fail failed_bucket
tenth-Locked source b at st found nine = (
  failed_bucket at (Assoc.lookup source st.buckets),
  lookup-insert_self source _ st.buckets,
  rw found (ground (arith, nine)),
  rw found (ground (arith, nine)),
)
