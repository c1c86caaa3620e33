-- ===== src/Affinity.antt =====
-- proxy/affinity.go: the provider that a session's requests for a model are kept on. `digest` is
-- SHA-256 in hexadecimal, and what Redis answers under a key is an argument.
pub mod Scoped
use muhiya_workspace.Prelude.{
  Bool, true, false, not, ◌||◌, Option, none, some, [], ◌∷◌, ◌++◌, if◌then◌else◌, Result, ok, err,
}
use muhiya_workspace.Prelude.Text.{Text, codes, text_eq, is_empty}
use muhiya_workspace.Prelude.Ascii.{trim_space}
use muhiya_workspace.Prelude.Json.{Fields, field, end, bool, str, arr, obj, cons, nil, set}

-- No store, a store without a client, and a client that answers with a failure or with the value.
pub data RouteAffinityStore : Type 0 where
  absent disabled : RouteAffinityStore
  client : (Text → Result Text (Option Text)) → RouteAffinityStore

unfoldable pub affinity_scope : (Text → Text) → Text → Text → Text → Text
affinity_scope digest key_id session_id record_id =
    codes "route-affinity:v1:" ++ digest (key_id ++ (0 ∷ (session_id ++ (0 ∷ record_id))))

abbrev pub value_of : Result Text (Option Text) → Result Text Text
value_of (ok none) = ok []
value_of (ok (some value)) = ok (trim_space value)
value_of (err e) = err e

unfoldable pub get : RouteAffinityStore → Text → Result Text Text
unfolding is_empty trim_space
get absent scope = ok []
get disabled scope = ok []
get (client answer) scope = if is_empty scope then ok [] else value_of (answer scope)

-- of the headers `X-Session-Id` and `X-Muhiya-Session`
unfoldable pub affinity_session : Text → Text → Text
unfolding trim_space is_empty
affinity_session session_id muhiya_session =
    let own = trim_space session_id in if is_empty own then trim_space muhiya_session else own

-- A known provider becomes the only one.
unfoldable pub pin_provider : Result Text Text → Fields → Fields
unfolding is_empty set
pin_provider (err e) body = body
pin_provider (ok upstream) body =
    if is_empty upstream
    then body
    else set (codes "provider")
        (obj (
          field (codes "order") (arr (cons (str upstream) nil))
            (field (codes "allow_fallbacks") (bool false) end)))
        body

abbrev pub is_absent : RouteAffinityStore → Bool
is_absent absent = true
is_absent _ = false

-- The body for the provider and the scope, which is empty where no affinity applies; the record's
-- id is none where the record is invalid.
unfoldable pub apply_provider_affinity :
    (Text → Text)
    → RouteAffinityStore
    → Text
    → Text
    → Text
    → Text
    → Option Text
    → Fields
    → Fields × Text
unfolding text_eq is_empty affinity_session affinity_scope get pin_provider
apply_provider_affinity digest store family key_id session_header muhiya_header none body =
    (body, [])
apply_provider_affinity digest store family key_id session_header muhiya_header (some id) body =
    let session = affinity_session session_header muhiya_header in
    let scope = affinity_scope digest key_id session id in
    if is_absent store || (not (text_eq family (codes "minimax-openrouter")) || is_empty session)
    then (body, [])
    else (pin_provider (get store scope) body, scope)
