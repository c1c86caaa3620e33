-- ===== src/Login/Authorised.antt =====
-- Who is served.
use mathlib.Core.Option.{some-injective}
use muhiya_workspace.Prelude.{
  ℕ, ◌≡◌, ◌≢◌, ◌↔◌, ◌⊎◌, inl, inr, refl, ap, Bool, if◌then◌else◌, true, false, not, ◌&&◌, ◌||◌,
  Option, none, some, List, [], arith,
}
use muhiya_workspace.Prelude.Text.{Text, is_empty, text_eq_refl, eq_of_text_eq}
use muhiya_workspace.Login.{
  Throttle, Outcome, served, forbidden, refuse, Credential, same_credential, presents,
  login_throttle_success, service_path_allowed, AdminRequest, is_forged, serves,
  service_or_admin_auth,
}
use muhiya_workspace.Login.Genuine.{IsReading, IsSameSite, IsNoForm, is_empty_iff, genuine_iff}

same_credential-eq : (c e : Credential) → same_credential c e ≡ true → c ≡ e
same_credential-eq c e h =
    let user = eq_of_text_eq c.user e.user (ground (arith, h)) in
    let pass = eq_of_text_eq c.pass e.pass (ground (arith, h)) in
    λ i. record { user = user i; pass = pass i }

presents_iff : (c : Option Credential) (e : Credential) → (presents c e ≡ true) ↔ (c ≡ some e)
unfolding presents
presents_iff none e = (λ h. cc, λ h. cc)
presents_iff (some c) e = (
  λ h. ap some (same_credential-eq c e h),
  λ h. rw (some-injective c e h) (ground (arith, text_eq_refl e.user, text_eq_refl e.pass)),
)

refuse-ne-served :
    (now later : ℕ) (source : Text) (st : Throttle) → (refuse now later source st).1 ≢ served
unfolding refuse
refuse-ne-served now later source st = ground arith

all_four :
    (a b c d : Bool)
    → ((not a && not b && c && d) ≡ true) ↔ ((a ≡ false) × (b ≡ false) × (c ≡ true) × (d ≡ true))
all_four a b c d = ground arith

choice :
    (forged a b : Bool) (st st' : Throttle) (other : Throttle × Outcome)
    → other.1 ≢ served
    → ((if forged then (st, forbidden) else if a || b then (st', served) else other).1 ≡ served)
      ↔ ((forged ≡ false) × ((a ≡ true) ⊎ (b ≡ true)))
choice true a b st st' other h = (λ e. cc, λ e. absurd (ground (arith, e)))
choice false true b st st' other h = (λ _. (refl, inl refl), λ _. refl)
choice false false true st st' other h = (λ _. (refl, inr refl), λ _. refl)
choice false false false st st' other h = (λ e. absurd (h e), λ e. absurd (ground (arith, e)))

module _ (url_host media_type_of : Text → Option Text) (allowed_origins : List Text) where
  serves_iff :
      (service : Credential) (r : AdminRequest)
      → (serves url_host media_type_of allowed_origins service r ≡ true) ↔ (
          (service.user ≢ [])
          × (service.pass ≢ [])
          × (r.credential ≡ some service)
          × (service_path_allowed r.path ≡ true))
  unfolding serves
  serves_iff service r =
      let four =
        all_four (is_empty service.user) (is_empty service.pass) (presents r.credential service)
          (service_path_allowed r.path) in
      let user = is_empty_iff service.user in
      let pass = is_empty_iff service.pass in
      let credential = presents_iff r.credential service in
      (
        λ h. let (u, p, c, path) = four.0 h in (user.0 u, pass.0 p, credential.0 c, path),
        λ h. four.1 (user.1 h.0, pass.1 h.1, credential.1 h.2, h.3),
      )

  -- A request is served exactly if it reads, or comes from no other site and is no form, and it
  -- presents either the administrator's credential, or the service credential, which is configured,
  -- for a path on the list.
  pub service_or_admin_auth_iff :
      (admin service : Credential) (r : AdminRequest) (now later : ℕ) (st : Throttle)
      → ((service_or_admin_auth url_host media_type_of allowed_origins admin service r now later
            st).1
          ≡ served)
        ↔ ((IsReading r
              ⊎ (IsSameSite url_host media_type_of allowed_origins r
                  × IsNoForm url_host media_type_of allowed_origins r))
            × ((r.credential ≡ some admin)
                ⊎ ((service.user ≢ [])
                    × (service.pass ≢ [])
                    × (r.credential ≡ some service)
                    × (service_path_allowed r.path ≡ true))))
  unfolding service_or_admin_auth
  service_or_admin_auth_iff admin service r now later st =
      let chosen =
        choice (is_forged url_host media_type_of allowed_origins r) (presents r.credential admin)
          (serves url_host media_type_of allowed_origins service r) st
          (login_throttle_success r.source st) (refuse now later r.source st)
          (refuse-ne-served now later r.source st) in
      let own = presents_iff r.credential admin in
      let shared = serves_iff service r in
      let site = genuine_iff url_host media_type_of allowed_origins r in
      (
        λ h.
            let (genuine, who) = chosen.0 h in
            (site.0 genuine, elim who [ inl a ↦ inl (own.0 a) | inr b ↦ inr (shared.0 b) ]),
        λ h. chosen.1 (site.1 h.0, elim h.1 [ inl a ↦ inl (own.1 a) | inr b ↦ inr (shared.1 b) ]),
      )
