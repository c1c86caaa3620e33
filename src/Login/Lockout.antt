-- ===== src/Login/Lockout.antt =====
-- A source that is locked out stays locked out, whatever the other sources do.
use muhiya_workspace.Prelude.{
  ℕ, ◌+◌, ◌<◌, ◌≡◌, ◌⊎◌, inl, inr, refl, true, false, Option, some, List, [], ◌∷◌, arith,
  Bool-cases, ◌||◌,
}
use muhiya_workspace.Prelude.Text.{Text, text_eq}
use muhiya_workspace.Prelude.Assoc
use muhiya_workspace.Prelude.Assoc.{lookup-insert, lookup-insert_self, lookup-erase}
use muhiya_workspace.Login.{
  login_lock_duration, LoginBucket, Throttle, too_many_requests, login_throttle_fail, Credential,
  presents, basic_auth, Outcome, forbidden, AdminRequest, is_forged, serves, service_or_admin_auth,
}
use muhiya_workspace.Login.Locked.{
  Locked, refuse-Locked, accepted-Locked, refuse-blocks, tenth-Locked,
}

-- An attempt at `/admin`, of a time before and after the delay, a source and a credential, or at
-- `/api`, of the two times and a request.
pub data Attempt : Type 0 where
  portal : ℕ → ℕ → Text → Option Credential → Attempt
  api : ℕ → ℕ → AdminRequest → Attempt

abbrev pub time_of : Attempt → ℕ
time_of (portal now later source credential) = now
time_of (api now later r) = now

abbrev pub source_of : Attempt → Text
source_of (portal now later source credential) = source
source_of (api now later r) = r.source

module _ (url_host media_type_of : Text → Option Text) (allowed_origins : List Text)
    (admin service : Credential) where
  -- both handlers share the throttle
  unfoldable pub try_attempt : Attempt → Throttle → Throttle × Outcome
  unfolding basic_auth service_or_admin_auth
  try_attempt (portal now later source credential) st =
      basic_auth admin credential now later source st
  try_attempt (api now later r) st =
      service_or_admin_auth url_host media_type_of allowed_origins admin service r now later st

  -- the attempts one after another
  unfoldable pub run : List Attempt → Throttle → Throttle
  unfolding try_attempt
  run [] st = st
  run (a ∷ attempts) st = run attempts (try_attempt a st).0

  -- The attempt has not the administrator's credential, nor at `/api` the service credential for a path
  -- on its list.
  abbrev pub IsWrong : Attempt → Type 0
  IsWrong (portal now later source credential) = presents credential admin ≡ false
  IsWrong (api now later r) =
      (presents r.credential admin ≡ false)
      × (serves url_host media_type_of allowed_origins service r ≡ false)

  -- Every attempt is before a time, and those of the source are wrong.
  unfoldable pub AllBefore : Text → ℕ → List Attempt → Type 0
  AllBefore source until [] = Unit
  AllBefore source until (a ∷ attempts) =
      (time_of a < until)
      × ((text_eq (source_of a) source ≡ false) ⊎ IsWrong a)
      × AllBefore source until attempts

  -- The answer is that there were too many attempts, or at `/api` that a page of another site sent it.
  abbrev pub IsRefused : Attempt → Outcome → Type 0
  IsRefused (portal now later source credential) outcome = outcome ≡ too_many_requests
  IsRefused (api now later r) outcome =
      ((is_forged url_host media_type_of allowed_origins r ≡ false) × (outcome ≡ too_many_requests))
      ⊎ ((is_forged url_host media_type_of allowed_origins r ≡ true) × (outcome ≡ forbidden))

  portal-Locked :
      (source other : Text) (until now later : ℕ) (credential : Option Credential) (st : Throttle)
      → now < until
      → (text_eq other source ≡ false) ⊎ (presents credential admin ≡ false)
      → Locked source until st
      → Locked source until (basic_auth admin credential now later other st).0
  unfolding basic_auth
  portal-Locked source other until now later credential st early who h =
      elim (Bool-cases (presents credential admin)) [
        | inl right ↦ rw right (accepted-Locked source other until st _ who right h)
        | inr wrong ↦ rw wrong (refuse-Locked source other until now later st early h)
      ]

  api-Locked :
      (source : Text) (until now later : ℕ) (r : AdminRequest) (st : Throttle)
      → now < until
      → (text_eq r.source source ≡ false) ⊎ IsWrong (api now later r)
      → Locked source until st
      → Locked source until
          (service_or_admin_auth url_host media_type_of allowed_origins admin service r now later
            st).0
  unfolding service_or_admin_auth
  api-Locked source until now later r st early who h =
      let accepted =
        presents r.credential admin || serves url_host media_type_of allowed_origins service r in
      elim (Bool-cases (is_forged url_host media_type_of allowed_origins r)) [
        | inl forged ↦ rw forged h
        | inr genuine ↦ elim (Bool-cases accepted) [
          | inl right ↦
              rw (genuine, right)
                (accepted-Locked source r.source until st accepted
                  (elim who [ inl apart ↦ inl apart | inr (x, y) ↦ inr (ground (arith, x, y)) ])
                  right h)
          | inr wrong ↦
              rw (genuine, wrong) (refuse-Locked source r.source until now later st early h)
        ]
      ]

  attempt-Locked :
      (source : Text) (until : ℕ) (a : Attempt) (st : Throttle)
      → time_of a < until
      → (text_eq (source_of a) source ≡ false) ⊎ IsWrong a
      → Locked source until st
      → Locked source until (try_attempt a st).0
  unfolding try_attempt
  attempt-Locked source until (portal now later other credential) st early who h =
      portal-Locked source other until now later credential st early who h
  attempt-Locked source until (api now later r) st early who h =
      api-Locked source until now later r st early who h

  run-Locked :
      (source : Text) (until : ℕ) (attempts : List Attempt) (st : Throttle)
      → AllBefore source until attempts
      → Locked source until st
      → Locked source until (run attempts st)
  unfolding run AllBefore
  run-Locked source until [] st before h = h
  run-Locked source until (a ∷ attempts) st (early, who, before) h =
      run-Locked source until attempts _ before (attempt-Locked source until a st early who h)

  blocked :
      (until : ℕ) (a : Attempt) (st : Throttle)
      → time_of a < until
      → IsWrong a
      → Locked (source_of a) until st
      → IsRefused a (try_attempt a st).1
  unfolding try_attempt basic_auth service_or_admin_auth
  blocked until (portal now later source credential) st early wrong h =
      rw wrong (refuse-blocks source until now later st early h)
  blocked until (api now later r) st early (foreign, useless) h =
      elim (Bool-cases (is_forged url_host media_type_of allowed_origins r)) [
        | inl forged ↦ inr (forged, rw forged refl)
        | inr genuine ↦ inl (
          genuine,
          rw (genuine, foreign, useless) (refuse-blocks r.source until now later st early h),
        )
      ]

  -- After a source's tenth failure in a row, and whatever attempts come at `/admin` or `/api`, from
  -- other sources or wrong ones from this one, every attempt of the source is refused for fifteen
  -- minutes, unless it has the administrator's credential, or at `/api` the service credential for a
  -- path on its list.
  pub tenth_failure_locks_out :
      (b : LoginBucket) (at : ℕ) (st : Throttle) (attempts : List Attempt) (a : Attempt)
      → Assoc.lookup (source_of a) st.buckets ≡ some b
      → b.fails ≡ 9
      → AllBefore (source_of a) (at + login_lock_duration) attempts
      → time_of a < at + login_lock_duration
      → IsWrong a
      → IsRefused a (try_attempt a (run attempts (login_throttle_fail at (source_of a) st))).1
  tenth_failure_locks_out b at st attempts a found nine before early wrong =
      blocked (at + login_lock_duration) a _ early wrong (
        run-Locked (source_of a) _ attempts _ before
          (tenth-Locked (source_of a) b at st found nine))
