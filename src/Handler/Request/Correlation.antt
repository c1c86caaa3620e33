-- ===== src/Handler/Request/Correlation.antt =====
-- The identifier under which an attempt of a request is logged and settled.
use mathlib.Core.Option.{some-injective}
use muhiya_workspace.Prelude.{ℕ, ◌≤◌, ◌≡◌, ◌≢◌, refl, sym, ap, ◌∙◌, true, [], ◌∷◌, ◌++◌, arith}
use muhiya_workspace.Prelude.Int.{ℤ, pos, negsuc, pos_part, neg_part}
use muhiya_workspace.Prelude.Text.{Text, codes}
use muhiya_workspace.Prelude.Ascii.{trim_space}
use muhiya_workspace.Prelude.Decimal.{scan, format, scan-emit, power10}
use muhiya_workspace.Handler.Request.{
  all_id_chars, valid_logical_request_id, decimal, request_attempt_number, request_correlation_for,
}

-- No byte of the text is 0.
abbrev pub NoNul : Text → Type 0
NoNul [] = Unit
NoNul (c ∷ s) = (c ≢ 0) × NoNul s

valid-NoNul : (s : Text) → all_id_chars s ≡ true → NoNul s
unfolding all_id_chars
valid-NoNul [] h = tt
valid-NoNul (c ∷ s) h = (ground (arith, h), valid-NoNul s (ground (arith, h)))

-- Texts that are joined by a byte 0 are told apart.
pub joined-injective :
    (a b s t : Text) → NoNul a → NoNul b → a ++ (0 ∷ s) ≡ b ++ (0 ∷ t) → (a ≡ b) × (s ≡ t)
joined-injective [] [] s t ha hb h = (refl, cc)
joined-injective [] (d ∷ b) s t ha (hd, hb) h = ground (arith, h, hd)
joined-injective (c ∷ a) [] s t (hc, ha) hb h = ground (arith, h, hc)
joined-injective (c ∷ a) (d ∷ b) s t (hc, ha) (hd, hb) h =
    ground (arith, h, joined-injective a b s t ha hb)

-- an attempt's number is between 0 and 100
abbrev pub Small : ℤ → Type 0
Small z = (neg_part z ≡ 0) × (pos_part z ≤ 100)

request_attempt_number-Small : (header : Text) → Small (request_attempt_number header)
unfolding request_attempt_number
request_attempt_number-Small header = ground arith

format-injective : (m n : ℕ) → m ≤ 100 → n ≤ 100 → format m ≡ format n → m ≡ n
unfolding scan power10
format-injective m n hm hn h =
    some-injective m n (
      sym (scan-emit 20 m [] (omega arith))
      ∙ ap (λ s. scan s 0) h
      ∙ scan-emit 20 n [] (omega arith))

decimal-injective : (x y : ℤ) → Small x → Small y → decimal x ≡ decimal y → x ≡ y
decimal-injective (pos m) (pos n) hx hy h = ap pos (format-injective m n hx.1 hy.1 h)
decimal-injective (negsuc m) y hx hy h = absurd (ground (arith, hx))
decimal-injective (pos m) (negsuc n) hx hy h = absurd (ground (arith, hy))

-- the text that is hashed
unfoldable pub hashed : Text → Text → ℤ → Text
hashed key_id logical_id attempt = key_id ++ (0 ∷ (logical_id ++ (0 ∷ decimal attempt)))

hashed-injective :
    (key_id key_id' id id' : Text) (x y : ℤ)
    → NoNul key_id
    → NoNul key_id'
    → NoNul id
    → NoNul id'
    → Small x
    → Small y
    → hashed key_id id x ≡ hashed key_id' id' y
    → (key_id ≡ key_id') × (id ≡ id') × (x ≡ y)
unfolding hashed
hashed-injective key_id key_id' id id' x y hk hk' hi hi' hx hy h =
    let outer = joined-injective key_id key_id' _ _ hk hk' h in
    let inner = joined-injective id id' _ _ hi hi' outer.1 in
    (outer.0, inner.0, decimal-injective x y hx hy inner.1)

-- a valid logical id is the text that is hashed
correlation_hashed :
    (digest : Text → Text) (fresh header attempt key_id : Text)
    → valid_logical_request_id (trim_space header) ≡ true
    → (request_correlation_for digest fresh header attempt key_id).log_id
      ≡ codes "req-" ++ digest (hashed key_id (trim_space header) (request_attempt_number attempt))
unfolding request_correlation_for hashed valid_logical_request_id
correlation_hashed digest fresh header attempt key_id h = ground (arith, h)

valid_id-NoNul : (id : Text) → valid_logical_request_id id ≡ true → NoNul id
unfolding valid_logical_request_id
valid_id-NoNul id h = valid-NoNul id (ground (arith, h))

-- If the digest tells texts apart, then requests with valid identifiers that are logged under the
-- same id have the same key, the same identifier and the same attempt, where no key has a byte 0.
pub log_id-injective :
    (digest : Text → Text)
    → ((s t : Text) → digest s ≡ digest t → s ≡ t)
    → (fresh fresh' header header' attempt attempt' key_id key_id' : Text) → NoNul key_id
    → NoNul key_id'
    → valid_logical_request_id (trim_space header) ≡ true
    → valid_logical_request_id (trim_space header') ≡ true
    → (request_correlation_for digest fresh header attempt key_id).log_id
      ≡ (request_correlation_for digest fresh' header' attempt' key_id').log_id
    → (key_id ≡ key_id')
      × (trim_space header ≡ trim_space header')
      × (request_attempt_number attempt ≡ request_attempt_number attempt')
log_id-injective digest inj fresh fresh' header header' attempt attempt' key_id key_id' hk hk' hv
      hv' h =
    hashed-injective key_id key_id' (trim_space header) (trim_space header') _ _ hk hk'
      (valid_id-NoNul (trim_space header) hv) (valid_id-NoNul (trim_space header') hv')
      (request_attempt_number-Small attempt) (request_attempt_number-Small attempt')
      (inj _ _ (
        cc (
          correlation_hashed digest fresh header attempt key_id hv,
          correlation_hashed digest fresh' header' attempt' key_id' hv',
          h,
        )))
