-- ===== src/Tests/Login.antt =====
-- A source that has failed nine times, and a request with the service credential.
use muhiya_workspace.Prelude.{
  ◌+◌, ◌≡◌, ◌≢◌, ◌↔◌, ◌⊎◌, refl, inl, inr, arith, List, true, Option, none, some, [], ◌∷◌,
}
use muhiya_workspace.Prelude.Text.{Text, codes, text_eq}
use muhiya_workspace.Prelude.Assoc
use muhiya_workspace.Login.{
  LoginBucket, Throttle, served, too_many_requests, login_throttle_fail, Credential, presents,
  AdminRequest, serves, service_path_allowed, service_or_admin_auth, login_lock_duration,
}
use muhiya_workspace.Login.Authorised.{service_or_admin_auth_iff}
use muhiya_workspace.Login.Lockout.{
  Attempt, portal, api, try_attempt, run, AllBefore, tenth_failure_locks_out,
}
use muhiya_workspace.Login.Genuine.{IsReading, IsSameSite, IsNoForm}

abbrev admin : Credential
admin = record { user = codes "admin"; pass = codes "secret" }

abbrev service : Credential
service = record { user = codes "platform"; pass = codes "token" }

abbrev guess : Credential
guess = record { user = codes "admin"; pass = codes "guess" }

abbrev nine_failures : LoginBucket
nine_failures = record { fails = 9; last_fail = 900; locked_until = 0 }

abbrev throttle : Throttle
throttle = record { buckets = (codes "10.0.0.1", nine_failures) ∷ []; failures = [] }

abbrev no_header : Text → Option Text
no_header _ = none

abbrev logs_request : AdminRequest
logs_request = record {
  method = codes "GET";
  path = codes "/api/logs/1";
  origin = [];
  host = codes "gateway";
  content_type = [];
  source = codes "10.0.0.3";
  credential = some service;
}

-- An administrator from another source, and a service request from the locked one for a foreign path.
abbrev attempts : List Attempt
attempts =
    portal 1_100 1_100 (codes "10.0.0.2") (some admin)
    ∷ api 1_200 1_200
        (record logs_request { source = codes "10.0.0.1"; path = codes "/api/models" })
    ∷ []

abbrev guessed : Attempt
guessed = portal 2_000 2_000 (codes "10.0.0.1") (some guess)

before :
    AllBefore no_header no_header [] admin service
      (codes "10.0.0.1")
      (1_000 + login_lock_duration)
      attempts
unfolding AllBefore text_eq presents serves service_path_allowed
before = (omega arith, inl refl, (omega arith, inr (refl, refl), tt))

tenth_failure_locks_out_example :
    (try_attempt no_header no_header [] admin service guessed (
      run no_header no_header [] admin service attempts
        (login_throttle_fail 1_000 (codes "10.0.0.1") throttle))).1
    ≡ too_many_requests
unfolding Assoc.lookup text_eq presents
tenth_failure_locks_out_example =
    tenth_failure_locks_out no_header no_header [] admin service nine_failures 1_000 throttle
      attempts guessed refl refl before (omega arith) refl

service_or_admin_auth_iff_example :
    ((service_or_admin_auth no_header no_header [] admin service logs_request 1 1 throttle).1
      ≡ served)
    ↔ ((IsReading logs_request
          ⊎ (IsSameSite no_header no_header [] logs_request
              × IsNoForm no_header no_header [] logs_request))
        × ((logs_request.credential ≡ some admin)
            ⊎ ((service.user ≢ [])
                × (service.pass ≢ [])
                × (logs_request.credential ≡ some service)
                × (service_path_allowed logs_request.path ≡ true))))
service_or_admin_auth_iff_example =
    service_or_admin_auth_iff no_header no_header [] admin service logs_request 1 1 throttle
