-- ===== src/Login/Genuine.antt =====
-- Which requests of a browser are kept out: those that change state and that a page of another site
-- could have made.
use mathlib.Core.List.{cons-ne-nil}
use mathlib.Core.Option.{some-injective}
use muhiya_workspace.Prelude.{
  ◌≡◌, ◌≢◌, ◌↔◌, ◌⊎◌, inl, inr, refl, Bool, if◌then◌else◌, true, false, not, ◌&&◌, ◌||◌, Option,
  none, some, List, [], ◌∷◌, arith, Bool-cases,
}
use muhiya_workspace.Prelude.Text.{Text, codes, text_eq, is_empty, eq_of_text_eq, ne_of_text_eq}
use muhiya_workspace.Prelude.Ascii.{equal_fold}
use muhiya_workspace.Login.{
  is_state_changing_method, fold_member, is_cross_site_request, has_browser_form_content_type,
  AdminRequest, is_forged,
}

pub is_empty_iff : (s : Text) → (is_empty s ≡ false) ↔ (s ≢ [])
unfolding is_empty
is_empty_iff [] = (λ h. cc, λ h. absurd (h refl))
is_empty_iff (c ∷ s) = (λ _. cons-ne-nil c s, λ _. refl)

-- The method is none of those that change state.
abbrev pub IsReading : AdminRequest → Type 0
IsReading r =
    (r.method ≢ codes "POST")
    × (r.method ≢ codes "PUT")
    × (r.method ≢ codes "PATCH")
    × (r.method ≢ codes "DELETE")

text_eq-iff_not : (s t : Text) → (text_eq s t ≡ false) ↔ (s ≢ t)
text_eq-iff_not s t = (
  ne_of_text_eq s t,
  λ ne. elim (Bool-cases (text_eq s t)) [
    | inl same ↦ absurd (ne (eq_of_text_eq s t same))
    | inr h ↦ h
  ],
)

none_of_four :
    (a b c d : Bool)
    → ((a || b || c || d) ≡ false) ↔ ((a ≡ false) × (b ≡ false) × (c ≡ false) × (d ≡ false))
none_of_four a b c d = ground arith

IsReading-iff : (r : AdminRequest) → (is_state_changing_method r.method ≡ false) ↔ IsReading r
unfolding is_state_changing_method
IsReading-iff r =
    let four =
      none_of_four (text_eq r.method (codes "POST")) (text_eq r.method (codes "PUT"))
        (text_eq r.method (codes "PATCH")) (text_eq r.method (codes "DELETE")) in
    let post = text_eq-iff_not r.method (codes "POST") in
    let put = text_eq-iff_not r.method (codes "PUT") in
    let patch = text_eq-iff_not r.method (codes "PATCH") in
    let delete = text_eq-iff_not r.method (codes "DELETE") in
    (
      λ h. let (a, b, c, d) = four.0 h in (post.0 a, put.0 b, patch.0 c, delete.0 d),
      λ h. let (a, b, c, d) = h in four.1 (post.1 a, put.1 b, patch.1 c, delete.1 d),
    )

-- A host that is one of the list, in whatever case.
abbrev pub IsListed : Text → List Text → Type 0
IsListed host [] = ⊥
IsListed host (allowed ∷ hosts) = (equal_fold host allowed ≡ true) ⊎ IsListed host hosts

IsListed-iff :
    (host : Text) (hosts : List Text) → (fold_member host hosts ≡ true) ↔ IsListed host hosts
unfolding fold_member
IsListed-iff host [] = (λ h. cc, λ h. absurd h)
IsListed-iff host (allowed ∷ hosts) =
    let rest = IsListed-iff host hosts in
    elim (Bool-cases (equal_fold host allowed)) [
      | inl same ↦ (λ _. inl same, λ _. rw same refl)
      | inr other ↦ (
        λ h. inr (rest.0 (rw other at h)),
        λ h. elim h [
          | inl same ↦ absurd (ground (arith, same, other))
          | inr m ↦ rw other (rest.1 m)
        ],
      )
    ]

empty_gate :
    (s : Text) (x : Bool) → ((if is_empty s then false else x) ≡ false) ↔ ((s ≡ []) ⊎ (x ≡ false))
unfolding is_empty
empty_gate [] x = (λ _. inl refl, λ _. refl)
empty_gate (c ∷ s) x = (λ h. inr h, λ h. elim h [ inl e ↦ absurd (cons-ne-nil c s e) | inr k ↦ k ])

host_gates :
    (a b c : Bool)
    → ((if a then true else if b then false else not c) ≡ false)
      ↔ ((a ≡ false) × ((b ≡ true) ⊎ (c ≡ true)))
host_gates a b c = ground arith

none_of_three : (a b c : Bool) → ((a || b || c) ≡ false) ↔ ((a ≡ false) × (b ≡ false) × (c ≡ false))
none_of_three a b c = ground arith

forged_gates :
    (a b c : Bool) → ((a && (b || c)) ≡ false) ↔ ((a ≡ false) ⊎ ((b ≡ false) × (c ≡ false)))
forged_gates a b c = ground arith

module _ (url_host media_type_of : Text → Option Text) (allowed_origins : List Text) where
  -- The header `Origin` is absent, or it is a URL whose host is the host that the request was sent to
  -- or one of the allowed ones.
  abbrev pub IsSameSite : AdminRequest → Type 0
  IsSameSite r =
      (r.origin ≡ [])
      ⊎ ((host : Text) × (url_host r.origin ≡ some host)
          × (host ≢ [])
          × ((equal_fold host r.host ≡ true) ⊎ IsListed host allowed_origins))

  -- The header `Content-Type` is absent or no media type, or it is none of the three that a form of a
  -- page can send.
  abbrev pub IsNoForm : AdminRequest → Type 0
  IsNoForm r =
      (r.content_type ≡ [])
      ⊎ (media_type_of r.content_type ≡ none)
      ⊎ ((media : Text) × (media_type_of r.content_type ≡ some media)
          × (media ≢ codes "text/plain")
          × (media ≢ codes "multipart/form-data")
          × (media ≢ codes "application/x-www-form-urlencoded"))

  host_iff :
      (parsed host : Text)
      → ((if is_empty parsed
            then true
            else if equal_fold parsed host
            then false
            else not (fold_member parsed allowed_origins))
          ≡ false)
        ↔ ((parsed ≢ []) × ((equal_fold parsed host ≡ true) ⊎ IsListed parsed allowed_origins))
  host_iff parsed host =
      let gates =
        host_gates (is_empty parsed) (equal_fold parsed host)
          (fold_member parsed allowed_origins) in
      let given = is_empty_iff parsed in
      let listed = IsListed-iff parsed allowed_origins in
      (
        λ h.
            let (some_host, who) = gates.0 h in
            (given.0 some_host, elim who [ inl own ↦ inl own | inr m ↦ inr (listed.0 m) ]),
        λ h. gates.1 (given.1 h.0, elim h.1 [ inl own ↦ inl own | inr m ↦ inr (listed.1 m) ]),
      )

  parsed_iff :
      (url : Option Text) (host : Text)
      → ((elim url [
        | none ↦ true
        | some parsed ↦
            if is_empty parsed
            then true
            else if equal_fold parsed host
            then false
            else not (fold_member parsed allowed_origins)
      ])
          ≡ false)
        ↔ ((parsed : Text) × (url ≡ some parsed)
            × (parsed ≢ [])
            × ((equal_fold parsed host ≡ true) ⊎ IsListed parsed allowed_origins))
  parsed_iff none host = (λ h. cc, λ h. let (_, e, _, _) = h in cc)
  parsed_iff (some parsed) host = (
    λ h. let (given, who) = (host_iff parsed host).0 h in (parsed, refl, given, who),
    λ h.
        let (other, e, given, who) = h in
        rw (some-injective parsed other e) ((host_iff other host).1 (given, who)),
  )

  media_plain_iff :
      (media : Text)
      → ((text_eq media (codes "text/plain")
            || text_eq media (codes "multipart/form-data")
            || text_eq media (codes "application/x-www-form-urlencoded"))
          ≡ false)
        ↔ ((media ≢ codes "text/plain")
            × (media ≢ codes "multipart/form-data")
            × (media ≢ codes "application/x-www-form-urlencoded"))
  media_plain_iff media =
      let three =
        none_of_three (text_eq media (codes "text/plain"))
          (text_eq media (codes "multipart/form-data"))
          (text_eq media (codes "application/x-www-form-urlencoded")) in
      let plain = text_eq-iff_not media (codes "text/plain") in
      let multipart = text_eq-iff_not media (codes "multipart/form-data") in
      let encoded = text_eq-iff_not media (codes "application/x-www-form-urlencoded") in
      (
        λ h. let (a, b, c) = three.0 h in (plain.0 a, multipart.0 b, encoded.0 c),
        λ h. let (a, b, c) = h in three.1 (plain.1 a, multipart.1 b, encoded.1 c),
      )

  media_iff :
      (type : Option Text)
      → ((elim type [
        | none ↦ false
        | some media ↦
            text_eq media (codes "text/plain")
            || text_eq media (codes "multipart/form-data")
            || text_eq media (codes "application/x-www-form-urlencoded")
      ])
          ≡ false)
        ↔ ((type ≡ none)
            ⊎ ((media : Text) × (type ≡ some media)
                × (media ≢ codes "text/plain")
                × (media ≢ codes "multipart/form-data")
                × (media ≢ codes "application/x-www-form-urlencoded")))
  media_iff none = (λ _. inl refl, λ _. refl)
  media_iff (some media) = (
    λ h. let (a, b, c) = (media_plain_iff media).0 h in inr (media, refl, a, b, c),
    λ h. elim h [
      | inl e ↦ cc
      | inr (other, e, a, b, c) ↦
          rw (some-injective media other e) ((media_plain_iff other).1 (a, b, c))
    ],
  )

  IsSameSite-iff :
      (r : AdminRequest)
      → (is_cross_site_request url_host allowed_origins r.origin r.host ≡ false) ↔ IsSameSite r
  unfolding is_cross_site_request
  IsSameSite-iff r =
      let parsed = parsed_iff (url_host r.origin) r.host in
      let gate = empty_gate r.origin _ in
      (
        λ h. elim (gate.0 h) [ inl e ↦ inl e | inr k ↦ inr (parsed.0 k) ],
        λ h. gate.1 (elim h [ inl e ↦ inl e | inr k ↦ inr (parsed.1 k) ]),
      )

  IsNoForm-iff :
      (r : AdminRequest)
      → (has_browser_form_content_type media_type_of r.content_type ≡ false) ↔ IsNoForm r
  unfolding has_browser_form_content_type
  IsNoForm-iff r =
      let media = media_iff (media_type_of r.content_type) in
      let gate = empty_gate r.content_type _ in
      (
        λ h. elim (gate.0 h) [ inl e ↦ inl e | inr k ↦ inr (media.0 k) ],
        λ h. gate.1 (elim h [ inl e ↦ inl e | inr k ↦ inr (media.1 k) ]),
      )

  pub genuine_iff :
      (r : AdminRequest)
      → (is_forged url_host media_type_of allowed_origins r ≡ false)
        ↔ (IsReading r ⊎ (IsSameSite r × IsNoForm r))
  unfolding is_forged
  genuine_iff r =
      let gates =
        forged_gates (is_state_changing_method r.method)
          (is_cross_site_request url_host allowed_origins r.origin r.host)
          (has_browser_form_content_type media_type_of r.content_type) in
      let reading = IsReading-iff r in
      let site = IsSameSite-iff r in
      let form = IsNoForm-iff r in
      (
        λ h. elim (gates.0 h) [ inl a ↦ inl (reading.0 a) | inr (b, c) ↦ inr (site.0 b, form.0 c) ],
        λ h. gates.1 (elim h [ inl a ↦ inl (reading.1 a) | inr (b, c) ↦ inr (site.1 b, form.1 c) ]),
      )
