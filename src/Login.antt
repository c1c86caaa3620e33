-- ===== src/Login.antt =====
-- main.go: who is let in to the administration (`/admin` and `/api`), and how guessing is slowed down.
-- A time is in nanoseconds. What net/url and mime read from a header, and the host part of a socket
-- address, are arguments.
pub mod Authorised
pub mod Genuine
pub mod Locked
pub mod Lockout
use muhiya_workspace.Prelude.{
  length, ℕ, zero, suc, ◌+◌, ◌-◌, ◌*◌, ◌^◌, Bool, true, false, not, ◌&&◌, ◌||◌, Option, none, some,
  List, [], ◌∷◌, ◌++◌, if◌then◌else◌, ltb, leb, ◌==◌,
}
use muhiya_workspace.Prelude.Text.{Text, codes, text_eq, is_empty}
use muhiya_workspace.Prelude.Ascii.{trim_space, has_prefix, equal_fold}
use muhiya_workspace.Prelude.Assoc

abbrev pub login_base_backoff : ℕ
login_base_backoff = 100_000_000

abbrev pub login_max_backoff : ℕ
login_max_backoff = 2_000_000_000

abbrev pub login_lock_threshold : ℕ
login_lock_threshold = 10

abbrev pub login_lock_duration : ℕ
login_lock_duration = 900_000_000_000

abbrev pub login_bucket_idle_ttl : ℕ
login_bucket_idle_ttl = 1_800_000_000_000

abbrev pub login_global_fail_max : ℕ
login_global_fail_max = 100

abbrev pub login_global_fail_win : ℕ
login_global_fail_win = 60_000_000_000

-- The zero time is 0.
pub record LoginBucket : Type 0 where
  pub fails : ℕ
  pub last_fail : ℕ
  pub locked_until : ℕ

-- `loginThrottleBuckets` and `loginThrottleGlobal`
pub record Throttle : Type 0 where
  pub buckets : List (Text × LoginBucket)
  pub failures : List ℕ

-- the text before the first comma, where there is one
unfoldable pub before_comma : Text → Option Text
before_comma [] = none
before_comma (c ∷ s) =
    let rest : Option Text = elim (before_comma s) [
      | none ↦ none
      | some prefix ↦ some (c ∷ prefix)
    ] in
    if c == b',' then some [] else rest

-- of the header `X-Forwarded-For` and the address of the socket
unfoldable pub client_source : (Text → Option Text) → Text → Text → Text
unfolding trim_space is_empty before_comma
client_source split_host_port forwarded_for remote_addr =
    let xff = trim_space forwarded_for in
    let direct : Text = elim (split_host_port remote_addr) [
      | none ↦ remote_addr
      | some host ↦ host
    ] in
    let first : Text = elim (before_comma xff) [
      | none ↦ xff
      | some [] ↦ xff
      | some (c ∷ prefix) ↦ trim_space (c ∷ prefix)
    ] in
    if not (is_empty xff) then first else direct

unfoldable pub prune_buckets : ℕ → List (Text × LoginBucket) → List (Text × LoginBucket)
prune_buckets now [] = []
prune_buckets now ((k, b) ∷ buckets) =
    let rest = prune_buckets now buckets in
    if ltb login_bucket_idle_ttl (now - b.last_fail) then rest else (k, b) ∷ rest

unfoldable pub recent : ℕ → List ℕ → List ℕ
recent now [] = []
recent now (t ∷ times) =
    let rest = recent now times in if ltb now (t + login_global_fail_win) then t ∷ rest else rest

unfoldable pub prune_login_throttle_locked : ℕ → Throttle → Throttle
unfolding prune_buckets recent
prune_login_throttle_locked now st =
    if leb (length st.buckets) 4096
    then st
    else record { buckets = prune_buckets now st.buckets; failures = recent now st.failures }

unfoldable pub global_fails : ℕ → List ℕ → ℕ
global_fails now [] = 0
global_fails now (t ∷ times) =
    let rest = global_fails now times in
    if leb (now - t) login_global_fail_win then suc rest else rest

unfoldable pub is_locked : ℕ → Option LoginBucket → Bool
is_locked now none = false
is_locked now (some b) = ltb now b.locked_until

-- the delay before the answer
unfoldable pub backoff_of : Option LoginBucket → Bool → ℕ
backoff_of none locked = 0
backoff_of (some b) locked =
    let doublings = if ltb (b.fails - 1) 20 then b.fails - 1 else 20 in
    let backoff = login_base_backoff * 2 ^ doublings in
    if ltb 0 b.fails && not locked
    then (if ltb login_max_backoff backoff then login_max_backoff else backoff)
    else 0

-- the state, whether the answer may proceed, and after what delay
unfoldable pub login_throttle_guard : ℕ → Text → Throttle → Throttle × Bool × ℕ
unfolding prune_login_throttle_locked Assoc.lookup global_fails is_locked backoff_of
login_throttle_guard now source st =
    let pruned = prune_login_throttle_locked now st in
    let b = Assoc.lookup source pruned.buckets in
    let locked = is_locked now b in
    let tripped = leb login_global_fail_max (global_fails now pruned.failures) in
    if locked || tripped then (pruned, false, 0) else (pruned, true, backoff_of b locked)

-- the bucket after one more failure
unfoldable pub failed_bucket : ℕ → Option LoginBucket → LoginBucket
failed_bucket now none = record { fails = 1; last_fail = now; locked_until = 0 }
failed_bucket now (some b) =
    if leb login_lock_threshold (suc b.fails)
    then record { fails = 0; last_fail = now; locked_until = now + login_lock_duration }
    else record { fails = suc b.fails; last_fail = now; locked_until = b.locked_until }

unfoldable pub login_throttle_fail : ℕ → Text → Throttle → Throttle
unfolding Assoc.lookup Assoc.insert failed_bucket
login_throttle_fail now source st = record {
  buckets = Assoc.insert source (failed_bucket now (Assoc.lookup source st.buckets)) st.buckets;
  failures = st.failures ++ (now ∷ []);
}

unfoldable pub login_throttle_success : Text → Throttle → Throttle
unfolding Assoc.erase
login_throttle_success source st = record st { buckets = Assoc.erase source st.buckets }

pub data Outcome : Type 0 where
  served forbidden unauthorized too_many_requests : Outcome

-- what both handlers do where no credential is accepted; `later` is the time after the delay
unfoldable pub refuse : ℕ → ℕ → Text → Throttle → Throttle × Outcome
unfolding login_throttle_guard login_throttle_fail
refuse now later source st =
    let (checked, proceed, _) = login_throttle_guard now source st in
    if not proceed
    then (checked, too_many_requests)
    else (login_throttle_fail later source checked, unauthorized)

pub record Credential : Type 0 where
  pub user : Text
  pub pass : Text

abbrev pub same_credential : Credential → Credential → Bool
same_credential presented expected =
    text_eq presented.user expected.user && text_eq presented.pass expected.pass

-- whether the credential that a request presents is the expected one
unfoldable pub presents : Option Credential → Credential → Bool
unfolding text_eq
presents none expected = false
presents (some presented) expected = same_credential presented expected

unfoldable pub basic_auth :
    Credential → Option Credential → ℕ → ℕ → Text → Throttle → Throttle × Outcome
unfolding presents refuse login_throttle_success
basic_auth admin presented now later source st =
    if not (presents presented admin)
    then refuse now later source st
    else (login_throttle_success source st, served)

abbrev pub service_allowlist : List Text
service_allowlist =
    codes "/api/users"
    ∷ codes "/api/keys"
    ∷ codes "/api/logs"
    ∷ codes "/api/usage-resets"
    ∷ codes "/api/stats"
    ∷ codes "/api/plans"
    ∷ codes "/api/settings"
    ∷ codes "/api/health"
    ∷ []

unfoldable pub path_below : Text → List Text → Bool
unfolding text_eq has_prefix
path_below p [] = false
path_below p (pref ∷ prefs) =
    if text_eq p pref || has_prefix p (pref ++ codes "/") then true else path_below p prefs

unfoldable pub service_path_allowed : Text → Bool
unfolding path_below
service_path_allowed p = path_below p service_allowlist

unfoldable pub is_state_changing_method : Text → Bool
unfolding text_eq
is_state_changing_method method =
    text_eq method (codes "POST")
    || text_eq method (codes "PUT")
    || text_eq method (codes "PATCH")
    || text_eq method (codes "DELETE")

unfoldable pub fold_member : Text → List Text → Bool
unfolding equal_fold
fold_member host [] = false
fold_member host (allowed ∷ hosts) =
    if equal_fold host allowed then true else fold_member host hosts

-- `url_host` gives the host of a URL, or `none` where it does not parse
unfoldable pub is_cross_site_request : (Text → Option Text) → List Text → Text → Text → Bool
unfolding is_empty equal_fold fold_member
is_cross_site_request url_host allowed_origins origin host =
    if is_empty origin then false else elim (url_host origin) [
      | none ↦ true
      | some parsed ↦
          if is_empty parsed
          then true
          else if equal_fold parsed host
          then false
          else not (fold_member parsed allowed_origins)
    ]

unfoldable pub has_browser_form_content_type : (Text → Option Text) → Text → Bool
unfolding is_empty text_eq
has_browser_form_content_type media_type_of content_type =
    if is_empty content_type then false else elim (media_type_of content_type) [
      | none ↦ false
      | some media_type ↦
          text_eq media_type (codes "text/plain")
          || text_eq media_type (codes "multipart/form-data")
          || text_eq media_type (codes "application/x-www-form-urlencoded")
    ]

pub record AdminRequest : Type 0 where
  pub method : Text
  pub path : Text
  pub origin : Text
  pub host : Text
  pub content_type : Text
  pub source : Text
  pub credential : Option Credential

module _ (url_host media_type_of : Text → Option Text) (allowed_origins : List Text) where
  -- the guard against a page of another origin
  unfoldable pub is_forged : AdminRequest → Bool
  unfolding is_state_changing_method is_cross_site_request has_browser_form_content_type
  is_forged r =
      is_state_changing_method r.method
      && (is_cross_site_request url_host allowed_origins r.origin r.host
          || has_browser_form_content_type media_type_of r.content_type)

  -- whether a request may use the service credential
  unfoldable pub serves : Credential → AdminRequest → Bool
  unfolding is_empty presents service_path_allowed
  serves service r =
      not (is_empty service.user)
      && not (is_empty service.pass)
      && presents r.credential service
      && service_path_allowed r.path

  unfoldable pub service_or_admin_auth :
      Credential → Credential → AdminRequest → ℕ → ℕ → Throttle → Throttle × Outcome
  unfolding is_forged presents serves refuse login_throttle_success
  service_or_admin_auth admin service r now later st =
      if is_forged r
      then (st, forbidden)
      else if presents r.credential admin || serves service r
      then (login_throttle_success r.source st, served)
      else refuse now later r.source st

-- `pathNormalizationMiddleware`: the first `/v1/v1/` is at the beginning
unfoldable pub normalize_path : Text → Text
unfolding has_prefix
normalize_path path = if has_prefix path (codes "/v1/v1/") then drop_prefix 3 path else path
  where
    drop_prefix : ℕ → Text → Text
    drop_prefix zero s = s
    drop_prefix (suc n) [] = []
    drop_prefix (suc n) (_ ∷ s) = drop_prefix n s
