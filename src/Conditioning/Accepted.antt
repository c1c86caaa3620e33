-- ===== src/Conditioning/Accepted.antt =====
-- A field of the conditioned request, told from the client's request alone.
use muhiya_workspace.Prelude.{
  ◌≡◌, refl, sym, ap, ◌∙◌, Bool, true, false, ◌||◌, ◌&&◌, not, Option, none, some, List, [], ◌∷◌,
  if◌then◌else◌, Bool-cases, inl, inr, arith,
}
use muhiya_workspace.Prelude.Text.{Text, codes, text_eq, eq_of_text_eq}
use muhiya_workspace.Prelude.Json.{
  Json, Fields, get, set, remove, get-set_self, get-set_other, get-remove_self, get-remove_other,
}
use muhiya_workspace.Conditioning.{
  object_of, string_of, bool_of, deepseek_unsupported_fields, remove_all, with_limit, rename_limit,
  is_supported_format, strip_unsupported_deepseek_response_format, is_disabled,
  deepseek_thinking_disabled, drop_sampling, drop_stream_options,
  condition_deepseek_chat_completion,
}

-- What a deletion under a test leaves of a field.
abbrev pub dropped : Bool → Option Json → Option Json
dropped b o = if b then none else o

get-remove : (k j : Text) (fs : Fields) → get k (remove j fs) ≡ dropped (text_eq j k) (get k fs)
get-remove k j fs = elim (Bool-cases (text_eq j k)) [
  | inl same ↦ ground (arith, same, eq_of_text_eq j k same, get-remove_self k fs)
  | inr other ↦ rw (other, get-remove_other j k fs other) refl
]

abbrev pub listed : Text → List Text → Bool
listed k [] = false
listed k (j ∷ js) = text_eq j k || listed k js

get-remove_all :
    (k : Text) (js : List Text) (fs : Fields)
    → get k (remove_all js fs) ≡ dropped (listed k js) (get k fs)
unfolding remove_all
get-remove_all k [] fs = refl
get-remove_all k (j ∷ js) fs = ground (arith, get-remove_all k js (remove j fs), get-remove k j fs)

-- the limit, or where there is none its alias
abbrev pub or_alias : Option Json → Option Json → Option Json
or_alias (some limit) _ = some limit
or_alias none alias = alias

or_alias-none : (o : Option Json) → or_alias o none ≡ o
or_alias-none (some limit) = refl
or_alias-none none = refl

abbrev pub limit_of : Text → Option Json → Fields → Option Json
limit_of k alias body =
    if text_eq (codes "max_tokens") k then or_alias (get k body) alias else get k body

limit_of_absent : (k : Text) (body : Fields) → get k body ≡ limit_of k none body
limit_of_absent k body = elim (Bool-cases (text_eq (codes "max_tokens") k)) [
  | inl same ↦ rw same (sym (or_alias-none (get k body)))
  | inr other ↦ rw other refl
]

limit_of_own :
    (k : Text) (alias : Option Json) {own : Json} (body : Fields)
    → get (codes "max_tokens") body ≡ some own
    → get k body ≡ limit_of k alias body
limit_of_own k alias body h = elim (Bool-cases (text_eq (codes "max_tokens") k)) [
  | inl same ↦ rw (same, sym (eq_of_text_eq (codes "max_tokens") k same), h) refl
  | inr other ↦ rw other refl
]

limit_of_alias :
    (k : Text) (limit : Json) (body : Fields)
    → get (codes "max_tokens") body ≡ none
    → get k (set (codes "max_tokens") limit body) ≡ limit_of k (some limit) body
limit_of_alias k limit body h = elim (Bool-cases (text_eq (codes "max_tokens") k)) [
  | inl same ↦
      rw (same, sym (eq_of_text_eq (codes "max_tokens") k same), h)
        (get-set_self (codes "max_tokens") limit body)
  | inr other ↦ rw other (get-set_other (codes "max_tokens") k limit body other)
]

get-with_limit :
    (k : Text) (alias own : Option Json) (body : Fields)
    → get (codes "max_completion_tokens") body ≡ alias
    → get (codes "max_tokens") body ≡ own
    → get k (with_limit alias own body)
      ≡ dropped (text_eq (codes "max_completion_tokens") k) (limit_of k alias body)
unfolding with_limit
get-with_limit k none own body ha ho =
    elim (Bool-cases (text_eq (codes "max_completion_tokens") k)) [
      | inl same ↦ rw (same, sym (eq_of_text_eq (codes "max_completion_tokens") k same)) ha
      | inr other ↦ rw other (limit_of_absent k body)
    ]
get-with_limit k (some limit) (some own) body ha ho =
    get-remove k (codes "max_completion_tokens") body
    ∙ ap (dropped (text_eq (codes "max_completion_tokens") k)) (limit_of_own k (some limit) body ho)
get-with_limit k (some limit) none body ha ho =
    get-remove k (codes "max_completion_tokens") (set (codes "max_tokens") limit body)
    ∙ ap (dropped (text_eq (codes "max_completion_tokens") k)) (limit_of_alias k limit body ho)

get-rename_limit :
    (k : Text) (body : Fields)
    → get k (rename_limit body)
      ≡ dropped
          (text_eq (codes "max_completion_tokens") k)
          (limit_of k (get (codes "max_completion_tokens") body) body)
unfolding rename_limit
get-rename_limit k body =
    get-with_limit k (get (codes "max_completion_tokens") body) (get (codes "max_tokens") body) body
      refl refl

-- a response format that is an object of a type other than `json_object` and `text`
abbrev pub is_refused_format : Option Fields → Bool
is_refused_format none = false
is_refused_format (some format) = not (is_supported_format (string_of (get (codes "type") format)))

get-strip_format :
    (k : Text) (body : Fields)
    → get k (strip_unsupported_deepseek_response_format body)
      ≡ dropped
          (is_refused_format (object_of (get (codes "response_format") body))
            && text_eq (codes "response_format") k)
          (get k body)
unfolding strip_unsupported_deepseek_response_format
get-strip_format k body = ground (arith, get-remove k (codes "response_format") body)

get-drop_sampling :
    (k : Text) (body : Fields)
    → get k (drop_sampling body)
      ≡ dropped
          (not (deepseek_thinking_disabled body)
            && listed k (codes "temperature" ∷ codes "top_p" ∷ []))
          (get k body)
unfolding drop_sampling remove_all
get-drop_sampling k body = elim (Bool-cases (deepseek_thinking_disabled body)) [
  | inl disabled ↦ rw disabled refl
  | inr enabled ↦ rw enabled (get-remove_all k (codes "temperature" ∷ codes "top_p" ∷ []) body)
]

get-drop_stream_options :
    (k : Text) (body : Fields)
    → get k (drop_stream_options body)
      ≡ dropped
          (not (bool_of (get (codes "stream") body)) && text_eq (codes "stream_options") k)
          (get k body)
unfolding drop_stream_options
get-drop_stream_options k body = elim (Bool-cases (bool_of (get (codes "stream") body))) [
  | inl streams ↦ rw streams refl
  | inr whole ↦ rw whole (get-remove k (codes "stream_options") body)
]

dropped-dropped : (b c : Bool) (o : Option Json) → dropped b (dropped c o) ≡ dropped (b || c) o
dropped-dropped true c o = refl
dropped-dropped false c o = refl

dropped_stages :
    (a b c d : Bool) (o : Option Json)
    → dropped a (dropped b (dropped c (dropped d o))) ≡ dropped (a || (b || (c || d))) o
dropped_stages true b c d o = refl
dropped_stages false true c d o = refl
dropped_stages false false c d o = dropped-dropped c d o

abbrev pub unsupported_body : Fields → Fields
unsupported_body body = remove_all deepseek_unsupported_fields (rename_limit body)

get-unsupported_body :
    (k : Text) (body : Fields)
    → get k (unsupported_body body)
      ≡ dropped
          (listed k deepseek_unsupported_fields || text_eq (codes "max_completion_tokens") k)
          (limit_of k (get (codes "max_completion_tokens") body) body)
get-unsupported_body k body =
    get-remove_all k deepseek_unsupported_fields (rename_limit body)
    ∙ ap (dropped (listed k deepseek_unsupported_fields)) (get-rename_limit k body)
    ∙ dropped-dropped (listed k deepseek_unsupported_fields)
        (text_eq (codes "max_completion_tokens") k)
        (limit_of k (get (codes "max_completion_tokens") body) body)

-- The first stages leave what the later tests read.
format_kept :
    (body : Fields)
    → get (codes "response_format") (unsupported_body body) ≡ get (codes "response_format") body
unfolding text_eq
format_kept body = get-unsupported_body (codes "response_format") body

dropped_never : (b : Bool) (o : Option Json) → dropped (b && false) o ≡ o
dropped_never true o = refl
dropped_never false o = refl

abbrev pub formatted_body : Fields → Fields
formatted_body body = strip_unsupported_deepseek_response_format (unsupported_body body)

thinking_kept :
    (body : Fields) → get (codes "thinking") (formatted_body body) ≡ get (codes "thinking") body
unfolding text_eq
thinking_kept body =
    get-strip_format (codes "thinking") (unsupported_body body)
    ∙ dropped_never
        (is_refused_format (object_of (get (codes "response_format") (unsupported_body body))))
        (get (codes "thinking") (unsupported_body body))
    ∙ get-unsupported_body (codes "thinking") body

disabled_kept :
    (body : Fields)
    → deepseek_thinking_disabled (formatted_body body) ≡ deepseek_thinking_disabled body
unfolding deepseek_thinking_disabled
disabled_kept body = ap (λ o. is_disabled (object_of o)) (thinking_kept body)

stream_kept :
    (body : Fields)
    → get (codes "stream") (drop_sampling (formatted_body body)) ≡ get (codes "stream") body
unfolding text_eq
stream_kept body =
    get-drop_sampling (codes "stream") (formatted_body body)
    ∙ dropped_never (not (deepseek_thinking_disabled (formatted_body body)))
        (get (codes "stream") (formatted_body body))
    ∙ get-strip_format (codes "stream") (unsupported_body body)
    ∙ dropped_never
        (is_refused_format (object_of (get (codes "response_format") (unsupported_body body))))
        (get (codes "stream") (unsupported_body body))
    ∙ get-unsupported_body (codes "stream") body

-- DeepSeek does not take the field of the client's request: the request is no stream and the field
-- is about streams, it reasons and the field is about sampling, the field is a refused response
-- format, or it is one of those that are never accepted.
abbrev pub is_unaccepted : Fields → Text → Bool
is_unaccepted body k =
    (not (bool_of (get (codes "stream") body)) && text_eq (codes "stream_options") k)
    || ((not (deepseek_thinking_disabled body)
          && listed k (codes "temperature" ∷ codes "top_p" ∷ []))
        || ((is_refused_format (object_of (get (codes "response_format") body))
              && text_eq (codes "response_format") k)
            || (listed k deepseek_unsupported_fields || text_eq (codes "max_completion_tokens") k)))

-- Every field of the conditioned request is the client's own where DeepSeek accepts it and absent
-- where it does not, but that a limit given under the alias alone becomes `max_tokens`.
pub condition_deepseek_chat_completion_accepted :
    (body : Fields) (k : Text)
    → get k (condition_deepseek_chat_completion body)
      ≡ dropped (is_unaccepted body k) (limit_of k (get (codes "max_completion_tokens") body) body)
unfolding condition_deepseek_chat_completion
condition_deepseek_chat_completion_accepted body k =
    get-drop_stream_options k (drop_sampling (formatted_body body))
    ∙ (rw
        (
          stream_kept body,
          get-drop_sampling k (formatted_body body),
          disabled_kept body,
          get-strip_format k (unsupported_body body),
          format_kept body,
          get-unsupported_body k body,
        )
        (dropped_stages
          (not (bool_of (get (codes "stream") body)) && text_eq (codes "stream_options") k)
          (not (deepseek_thinking_disabled body)
            && listed k (codes "temperature" ∷ codes "top_p" ∷ []))
          (is_refused_format (object_of (get (codes "response_format") body))
            && text_eq (codes "response_format") k)
          (listed k deepseek_unsupported_fields || text_eq (codes "max_completion_tokens") k)
          (limit_of k (get (codes "max_completion_tokens") body) body)))
