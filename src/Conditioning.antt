-- ===== src/Conditioning.antt =====
-- proxy/deepseek.go: what is removed from a request before it goes to DeepSeek's Chat Completions.
pub mod Accepted
use muhiya_workspace.Prelude.{
  Bool, true, false, ◌||◌, Option, none, some, List, [], ◌∷◌, if◌then◌else◌,
}
use muhiya_workspace.Prelude.Text.{Text, codes, text_eq}
use muhiya_workspace.Prelude.Json.{Json, bool, str, obj, Fields, get, set, remove}

-- The type assertions of the code: `.(map[string]interface{})`, and those whose zero value is used.
abbrev pub object_of : Option Json → Option Fields
object_of (some (obj fs)) = some fs
object_of _ = none

abbrev pub string_of : Option Json → Text
string_of (some (str s)) = s
string_of _ = []

abbrev pub bool_of : Option Json → Bool
bool_of (some (bool b)) = b
bool_of _ = false

abbrev pub deepseek_unsupported_fields : List Text
deepseek_unsupported_fields =
    codes "function_call"
    ∷ codes "functions"
    ∷ codes "include"
    ∷ codes "input"
    ∷ codes "instructions"
    ∷ codes "logit_bias"
    ∷ codes "max_output_tokens"
    ∷ codes "metadata"
    ∷ codes "modalities"
    ∷ codes "n"
    ∷ codes "output_config"
    ∷ codes "parallel_tool_calls"
    ∷ codes "previous_response_id"
    ∷ codes "reasoning"
    ∷ codes "seed"
    ∷ codes "service_tier"
    ∷ codes "store"
    ∷ codes "truncation"
    ∷ []

unfoldable pub remove_all : List Text → Fields → Fields
unfolding remove
remove_all [] body = body
remove_all (k ∷ ks) body = remove_all ks (remove k body)

-- The output limit under the name that DeepSeek has; the client's own limit stays.
unfoldable pub with_limit : Option Json → Option Json → Fields → Fields
unfolding set remove
with_limit none own body = body
with_limit (some limit) (some _) body = remove (codes "max_completion_tokens") body
with_limit (some limit) none body =
    remove (codes "max_completion_tokens") (set (codes "max_tokens") limit body)

unfoldable pub rename_limit : Fields → Fields
unfolding get with_limit
rename_limit body =
    with_limit (get (codes "max_completion_tokens") body) (get (codes "max_tokens") body) body

abbrev pub is_supported_format : Text → Bool
is_supported_format type_name =
    text_eq type_name (codes "json_object") || text_eq type_name (codes "text")

unfoldable pub strip_unsupported_deepseek_response_format : Fields → Fields
unfolding get remove
strip_unsupported_deepseek_response_format body =
    elim (object_of (get (codes "response_format") body)) [
      | none ↦ body
      | some format ↦
          if is_supported_format (string_of (get (codes "type") format))
          then body
          else remove (codes "response_format") body
    ]

abbrev pub is_disabled : Option Fields → Bool
is_disabled none = false
is_disabled (some thinking) = text_eq (string_of (get (codes "type") thinking)) (codes "disabled")

unfoldable pub deepseek_thinking_disabled : Fields → Bool
unfolding get
deepseek_thinking_disabled body = is_disabled (object_of (get (codes "thinking") body))

unfoldable pub drop_sampling : Fields → Fields
unfolding remove deepseek_thinking_disabled
drop_sampling body =
    if deepseek_thinking_disabled body
    then body
    else remove (codes "top_p") (remove (codes "temperature") body)

unfoldable pub drop_stream_options : Fields → Fields
unfolding get remove
drop_stream_options body =
    if bool_of (get (codes "stream") body) then body else remove (codes "stream_options") body

unfoldable pub condition_deepseek_chat_completion : Fields → Fields
unfolding rename_limit remove_all strip_unsupported_deepseek_response_format drop_sampling
    drop_stream_options
condition_deepseek_chat_completion body = drop_stream_options (
    drop_sampling (
      strip_unsupported_deepseek_response_format
        (remove_all deepseek_unsupported_fields (rename_limit body))))
