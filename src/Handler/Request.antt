-- ===== src/Handler/Request.antt =====
-- proxy/handler.go: what is read from the headers of a request, and which models are listed to it.
-- `digest` is SHA-256 in hexadecimal, and `fresh` the new identifier of this call.
pub mod Correlation
use muhiya_workspace.Prelude.{
  length, ℕ, suc, ◌+◌, ◌-◌, Bool, true, false, not, ◌&&◌, ◌||◌, Option, none, some, List, [], ◌∷◌,
  ◌++◌, if◌then◌else◌, ltb, leb, ◌==◌,
}
use muhiya_workspace.Prelude.Int.{ℤ, pos, negsuc, ltb_ℤ, sub_ℕ}
use muhiya_workspace.Prelude.Text.{Text, codes, text_eq, is_empty}
use muhiya_workspace.Prelude.Ascii.{is_digit, trim_space, to_lower, contains, contains_any}
use muhiya_workspace.Prelude.Decimal.{scan, format}

abbrev id_char : ℕ → Bool
id_char c =
    (leb b'a' c && leb c b'z')
    || (leb b'A' c && leb c b'Z')
    || is_digit c
    || c == b'-'
    || c == b'_'
    || c == b'.'

unfoldable pub all_id_chars : Text → Bool
all_id_chars [] = true
all_id_chars (c ∷ s) = id_char c && all_id_chars s

unfoldable pub valid_logical_request_id : Text → Bool
unfolding is_empty all_id_chars
valid_logical_request_id id = if is_empty id || ltb 100 (length id) then false else all_id_chars id

-- `strconv.ParseInt(s, 10, 64)`
unfoldable pub parse_int : Text → Option ℤ
unfolding scan
parse_int [] = none
parse_int (c ∷ s) =
    let negative = c == b'-' in
    let digits = if negative || c == b'+' then s else c ∷ s in
    elim digits [
      | [] ↦ none
      | d ∷ ds ↦ elim (scan (d ∷ ds) 0) [
        | none ↦ none
        | some n ↦
            if negative
            then if leb n 9223372036854775808 then some (sub_ℕ 0 n) else none
            else if leb n 9223372036854775807
            then some (pos n)
            else none
      ]
    ]

unfoldable pub request_attempt_number : Text → ℤ
unfolding trim_space is_empty parse_int
request_attempt_number header =
    let raw = trim_space header in
    if is_empty raw then pos 1 else elim (parse_int raw) [
      | none ↦ pos 1
      | some attempt ↦ if ltb_ℤ attempt (pos 1) || ltb_ℤ (pos 100) attempt then pos 1 else attempt
    ]

unfoldable pub request_cache_epoch : Text → ℤ
unfolding trim_space is_empty parse_int
request_cache_epoch header =
    let raw = trim_space header in
    if is_empty raw then pos 0 else elim (parse_int raw) [
      | none ↦ pos 0
      | some value ↦ if ltb_ℤ value (pos 0) then pos 0 else value
    ]

unfoldable pub has_control : Text → Bool
has_control [] = false
has_control (c ∷ s) = c == 13 || c == 10 || c == 0 || has_control s

-- of the headers `X-Muhiya-Session` and `X-Session-Id`
unfoldable pub request_session_id : Text → Text → Text
unfolding trim_space is_empty has_control
request_session_id muhiya_session session_id =
    let own = trim_space muhiya_session in
    let value = if is_empty own then trim_space session_id else own in
    if ltb 128 (length value) || has_control value then [] else value

pub record RequestCorrelation : Type 0 where
  pub log_id : Text
  pub client_request_id : Text
  pub attempt_number : ℤ

abbrev pub decimal : ℤ → Text
decimal (pos n) = format n
decimal (negsuc n) = codes "-" ++ format (suc n)

unfoldable pub request_correlation_for :
    (Text → Text) → Text → Text → Text → Text → RequestCorrelation
unfolding trim_space is_empty valid_logical_request_id request_attempt_number
request_correlation_for digest fresh id_header attempt_header key_id =
    let attempt = request_attempt_number attempt_header in
    let logical_id = trim_space id_header in
    if is_empty logical_id || not (valid_logical_request_id logical_id)
    then record { log_id = fresh; client_request_id = []; attempt_number = attempt }
    else record {
      log_id = codes "req-" ++ digest (key_id ++ (0 ∷ (logical_id ++ (0 ∷ decimal attempt))));
      client_request_id = logical_id;
      attempt_number = attempt;
    }

-- of the path and of the headers `x-api-key` and `anthropic-version`
unfoldable pub is_anthropic_request : Text → Text → Text → Bool
unfolding contains is_empty
is_anthropic_request path api_key version =
    if contains path (codes "/messages")
    then true
    else not (is_empty api_key) || not (is_empty version)

abbrev take : ℕ → Text → Text
take n [] = []
take n (c ∷ s) = if n == 0 then [] else c ∷ take (n - 1) s

-- of the headers `X-Client-App`, `User-Agent`, `x-api-key` and `anthropic-version`
unfoldable pub get_client_app_name : Text → Text → Text → Text → Text
unfolding is_empty contains contains_any to_lower
get_client_app_name client_app ua api_key version =
    let lower = to_lower ua in
    if not (is_empty client_app)
    then client_app
    else if is_empty ua
    then if not (is_empty api_key) || not (is_empty version)
      then codes "Anthropic Client"
      else codes "API Client"
    else if contains_any lower (codes "claude-code" ∷ codes "claude-cli" ∷ [])
    then codes "Claude Code"
    else if contains lower (codes "anthropic")
    then codes "Anthropic SDK"
    else if contains lower (codes "openai-python")
    then codes "OpenAI Python"
    else if contains lower (codes "openai-node")
    then codes "OpenAI Node"
    else if contains lower (codes "openai")
    then codes "OpenAI SDK"
    else if contains lower (codes "curl")
    then codes "curl"
    else if contains_any lower (codes "mozilla" ∷ codes "safari" ∷ codes "chrome" ∷ [])
    then codes "Web Browser"
    else if contains lower (codes "postman")
    then codes "Postman"
    else if ltb 20 (length ua)
    then take 17 ua ++ codes "..."
    else ua

pub data AppVisibility : Type 0 where
  visibility_any visibility_muhiya_code visibility_muhiya_chat : AppVisibility

unfoldable pub app_visibility_for : Text → AppVisibility
unfolding text_eq
app_visibility_for client_app =
    if text_eq client_app (codes "MuhiyaCode")
    then visibility_muhiya_code
    else if text_eq client_app (codes "MuhiyaChat")
    then visibility_muhiya_chat
    else visibility_any

unfoldable pub app_visibility_flag : Bool → AppVisibility
app_visibility_flag true = visibility_muhiya_code
app_visibility_flag false = visibility_any

-- the fields of `db.Model` that discovery reads
pub record ListedModel : Type 0 where
  pub name : Text
  pub status : Text
  pub transcribe : Bool
  pub muhiya_code_visible : Bool
  pub muhiya_chat_visible : Bool

-- `routerModelDeprecated`
abbrev pub router_model_deprecated : Text
router_model_deprecated = codes "muhiya-ai-router"

abbrev visible : ListedModel → AppVisibility → Bool
visible m visibility_any = true
visible m visibility_muhiya_code = m.muhiya_code_visible
visible m visibility_muhiya_chat = m.muhiya_chat_visible

unfoldable pub discoverable_model_for : Option ListedModel → AppVisibility → Bool
unfolding text_eq
discoverable_model_for none visibility = false
discoverable_model_for (some m) visibility =
    if not (text_eq m.status (codes "active"))
      || m.transcribe
      || text_eq m.name router_model_deprecated
    then false
    else visible m visibility

abbrev lower_letters : Text → Bool
lower_letters [] = true
lower_letters (c ∷ s) = leb b'a' c && leb c b'z' && lower_letters s

-- the part before the first `-`, unless the text begins with one
unfoldable pub before_dash : Text → Text
before_dash [] = []
before_dash (c ∷ s) = if c == b'-' then [] else c ∷ before_dash s

abbrev primary_subtag : Text → Text
primary_subtag [] = []
primary_subtag (c ∷ s) = if c == b'-' then c ∷ s else before_dash (c ∷ s)

unfoldable pub normalize_lang_code : Text → Text
unfolding trim_space to_lower before_dash is_empty
normalize_lang_code s =
    let tag = primary_subtag (trim_space (to_lower s)) in
    if not (length tag == 2) then [] else if lower_letters tag then tag else []
