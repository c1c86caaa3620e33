-- ===== src/Affinity/Scoped.antt =====
-- A provider is kept for the key, the session and the record that it was observed for.
use muhiya_workspace.Prelude.{
  ◌≡◌, ◌≢◌, refl, Bool, true, false, Option, none, some, [], ◌∷◌, ◌++◌, if◌then◌else◌, Result, ok,
  err,
}
use muhiya_workspace.Prelude.Text.{Text, codes, is_empty}
use muhiya_workspace.Prelude.Json.{Fields}
use muhiya_workspace.Handler.Request.Correlation.{NoNul, joined-injective}
use muhiya_workspace.Affinity.{
  client, affinity_scope, value_of, get, affinity_session, pin_provider, apply_provider_affinity,
}

-- A pinned body comes from an answer.
pinned_answer :
    (o : Result Text (Option Text)) (body : Fields)
    → pin_provider (value_of o) body ≢ body
    → (v : Text) × (o ≡ ok (some v))
unfolding pin_provider is_empty
pinned_answer (ok none) body h = absurd (h refl)
pinned_answer (ok (some v)) body h = (v, refl)
pinned_answer (err e) body h = absurd (h refl)

got_answer :
    (b : Bool) (o : Result Text (Option Text)) (body : Fields)
    → pin_provider (if b then ok [] else value_of o) body ≢ body
    → (v : Text) × (o ≡ ok (some v))
unfolding pin_provider is_empty
got_answer true o body h = absurd (h refl)
got_answer false o body h = pinned_answer o body h

guarded_change :
    (b : Bool) (changed body : Fields) (scope : Text)
    → (if◌then◌else◌ {A = Fields × Text} b (body, []) (changed, scope)).0 ≢ body
    → changed ≢ body
guarded_change true changed body scope h = absurd (h refl)
guarded_change false changed body scope h = h

prefix_cancel : (p s t : Text) → p ++ s ≡ p ++ t → s ≡ t
prefix_cancel [] s t h = h
prefix_cancel (c ∷ p) s t h = prefix_cancel p s t cc

affinity_scope-injective :
    (digest : Text → Text)
    → ((s t : Text) → digest s ≡ digest t → s ≡ t)
    → (key key' session session' id id' : Text) → NoNul key
    → NoNul key'
    → NoNul session
    → NoNul session'
    → affinity_scope digest key session id ≡ affinity_scope digest key' session' id'
    → (key ≡ key') × (session ≡ session') × (id ≡ id')
unfolding affinity_scope
affinity_scope-injective digest distinct key key' session session' id id' hk hk' hs hs' h =
    let outer =
      joined-injective key key' _ _ hk hk'
        (distinct _ _ (prefix_cancel (codes "route-affinity:v1:") _ _ h)) in
    let inner = joined-injective session session' id id' hs hs' outer.1 in
    (outer.0, inner.0, inner.1)

-- With a digest that tells texts apart, and a Redis that answers only under the scope of one key,
-- session and record, a request into whose body a provider is pinned is of that key, session and
-- record; keys and sessions have no byte 0.
pub pinned_provider_own :
    (digest : Text → Text)
    → ((s t : Text) → digest s ≡ digest t → s ≡ t)
    → (answer : Text → Result Text (Option Text)) (key session id : Text)
    → ((scope v : Text) → answer scope ≡ ok (some v) → scope ≡ affinity_scope digest key session id)
    → (family key' session_header muhiya_header id' : Text) (body : Fields) → NoNul key
    → NoNul key'
    → NoNul session
    → NoNul (affinity_session session_header muhiya_header)
    → (apply_provider_affinity digest
        (client answer)
        family
        key'
        session_header
        muhiya_header
        (some id')
        body).0
      ≢ body
    → (key' ≡ key) × (affinity_session session_header muhiya_header ≡ session) × (id' ≡ id)
unfolding apply_provider_affinity get
pinned_provider_own digest distinct answer key session id only family key' session_header
      muhiya_header id' body hk hk' hs hs' changed =
    let own = affinity_session session_header muhiya_header in
    let scope = affinity_scope digest key' own id' in
    let (v, found) =
      got_answer (is_empty scope) (answer scope) body
        (guarded_change _ (pin_provider (get (client answer) scope) body) body scope changed) in
    affinity_scope-injective digest distinct key' key own session id' id hk' hk hs' hs
      (only scope v found)
