-- ===== src/Handler/Limits.antt =====
-- proxy/handler.go: how many tokens of output a request may ask for, and how many tokens of input it
-- is taken to have. An `int` is an `int64` that the sums below do not leave.
pub mod Bounded
use muhiya_workspace.Prelude.{
  ℕ, zero, suc, ◌+◌, ◌-◌, ◌*◌, ◌/◌, Bool, true, false, not, ◌&&◌, ◌||◌, Option, none, some, List,
  [], ◌∷◌, if◌then◌else◌, ltb, leb, ◌==◌,
}
use muhiya_workspace.Prelude.Int.{ℤ, pos, ltb_ℤ, leb_ℤ, eqb_ℤ}
use muhiya_workspace.Prelude.Text.{Text, codes}
use muhiya_workspace.Prelude.Json
use muhiya_workspace.Prelude.Json.{Json, Fields, int}
use muhiya_workspace.Thinking.{Level, minimal, normalize_thinking_level}

-- the fields of `db.Model` that the limits read
pub record LimitedModel : Type 0 where
  pub max_output_tokens : ℤ
  pub context_window : ℤ
  pub supports_thinking : Bool

abbrev model_limit : Option LimitedModel → ℤ
model_limit none = pos 0
model_limit (some model) = model.max_output_tokens

unfoldable pub bounded_output_limit : ℤ → Option LimitedModel → ℤ
bounded_output_limit requested model =
    let limit = model_limit model in
    let wanted = if leb_ℤ requested (pos 0) then limit else requested in
    let chosen = if leb_ℤ wanted (pos 0) then pos 8192 else wanted in
    if ltb_ℤ (pos 0) limit && ltb_ℤ limit chosen then limit else chosen

-- what the client named: `max_completion_tokens` before `max_tokens`
unfoldable pub named_output : Option ℤ → Option ℤ → ℤ
named_output (some completion) max_tokens = completion
named_output none (some max_tokens) = max_tokens
named_output none none = pos 0

-- the ceiling, and whether the client named one
unfoldable pub requested_openai_output : Option ℤ → Option ℤ → Option LimitedModel → ℤ × Bool
unfolding named_output bounded_output_limit
requested_openai_output max_completion_tokens max_tokens model =
    let requested = named_output max_completion_tokens max_tokens in
    (bounded_output_limit requested model, ltb_ℤ (pos 0) requested)

-- `typicalCompletionTokens`
abbrev pub typical_completion_tokens : ℤ
typical_completion_tokens = pos 8192

unfoldable pub rate_limit_output_estimate : ℤ → Bool → ℤ
rate_limit_output_estimate limit client_specified =
    if client_specified
    then limit
    else if ltb_ℤ limit typical_completion_tokens
    then limit
    else typical_completion_tokens

abbrev is_minimal : Level → Bool
is_minimal minimal = true
is_minimal _ = false

unfoldable pub thinking_will_be_enabled : Option LimitedModel → Text → Bool
unfolding normalize_thinking_level
thinking_will_be_enabled none thinking_level = false
thinking_will_be_enabled (some model) thinking_level =
    if not model.supports_thinking
    then false
    else not (is_minimal (normalize_thinking_level thinking_level))

abbrev within : ℕ → ℕ → ℕ → Bool
within low high byte = leb low byte && leb byte high

-- a continuation byte of UTF-8
abbrev tail_byte : ℕ → Bool
tail_byte byte = within 128 191 byte

-- the range of the second byte behind a first one
unfoldable pub second_byte : ℕ → ℕ → Bool
second_byte first byte =
    if first == 224
    then within 160 191 byte
    else if first == 237
    then within 128 159 byte
    else if first == 240
    then within 144 191 byte
    else if first == 244
    then within 128 143 byte
    else tail_byte byte

-- the size that `utf8.DecodeRune` gives a text that begins with a byte above 127
unfoldable pub rune_size : Text → ℕ
unfolding second_byte
rune_size (a ∷ b ∷ c ∷ d ∷ _) =
    if within 194 223 a && second_byte a b
    then 2
    else if within 224 239 a && second_byte a b && tail_byte c
    then 3
    else if within 240 244 a && second_byte a b && tail_byte c && tail_byte d
    then 4
    else 1
rune_size (a ∷ b ∷ c ∷ []) =
    if within 194 223 a && second_byte a b
    then 2
    else if within 224 239 a && second_byte a b && tail_byte c
    then 3
    else 1
rune_size (a ∷ b ∷ []) = if within 194 223 a && second_byte a b then 2 else 1
rune_size (_ ∷ []) = 1
rune_size [] = 0

-- the loop of `serializedTokenEstimate`: the bytes of ASCII and the other characters, of a text of
-- which the first `skip` bytes belong to a character that is counted
unfoldable pub count_runes : ℕ → Text → ℕ × ℕ
unfolding rune_size
count_runes skip [] = (0, 0)
count_runes (suc skip) (_ ∷ s) = count_runes skip s
count_runes zero (byte ∷ s) = elim (ltb byte 128) [
  | true ↦ let (ascii, wide) = count_runes 0 s in (suc ascii, wide)
  | false ↦ let (ascii, wide) = count_runes (rune_size (byte ∷ s) - 1) s in (ascii, suc wide)
]

unfoldable pub serialized_token_estimate : Text → ℕ
unfolding count_runes
serialized_token_estimate raw_body =
    let (ascii_bytes, non_ascii) = count_runes 0 raw_body in (ascii_bytes + 2) / 3 + non_ascii * 2

abbrev context_of : Option LimitedModel → ℤ
context_of none = pos 0
context_of (some model) = model.context_window

unfoldable pub conservative_input_token_bound : Text → ℤ → Option LimitedModel → ℤ
unfolding serialized_token_estimate
conservative_input_token_bound raw_body estimated model =
    let serialized = pos (serialized_token_estimate raw_body + 512) in
    let bound = if ltb_ℤ serialized estimated then estimated else serialized in
    let window = context_of model in
    let capped = if ltb_ℤ (pos 0) window && ltb_ℤ window bound then window else bound in
    if ltb_ℤ capped (pos 1) then pos 1 else capped

-- `rewriteOpenAIOutputLimit`, of the decoded body
unfoldable pub rewrite_openai_output_limit : Fields → ℤ → Fields
unfolding Json.get Json.set Json.remove
rewrite_openai_output_limit payload limit =
    elim (Json.get (codes "max_completion_tokens") payload) [
      | some _ ↦
          Json.remove (codes "max_tokens")
            (Json.set (codes "max_completion_tokens") (int limit) payload)
      | none ↦ Json.set (codes "max_tokens") (int limit) payload
    ]
