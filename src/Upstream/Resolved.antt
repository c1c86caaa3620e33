-- ===== src/Upstream/Resolved.antt =====
-- A resolved address is the endpoint, and resolving it again changes nothing.
use mathlib.Core.Path.{subst}
use muhiya_workspace.Prelude.{
  ℕ, ◌≡◌, refl, ap, Bool, true, false, [], ◌∷◌, ◌++◌, if◌then◌else◌, Bool-cases, inl, inr, arith,
}
use muhiya_workspace.Prelude.Text.{Text, codes, text_eq, eq_of_text_eq, is_empty}
use muhiya_workspace.Prelude.Ascii.{is_space, trim_left, trim_right, trim_space}
use muhiya_workspace.Upstream.{
  chat_completions_path, trim_slashes, has_suffix, trim_suffix, endpoint, chat_completions,
}

-- The text does not begin with a blank.
abbrev IsLeftClean : Text → Type 0
IsLeftClean [] = Unit
IsLeftClean (c ∷ s) = is_space c ≡ false

trim_left-IsLeftClean : (s : Text) → IsLeftClean (trim_left s)
unfolding trim_left
trim_left-IsLeftClean [] = tt
trim_left-IsLeftClean (c ∷ s) = elim (Bool-cases (is_space c)) [
  | inl blank ↦ rw blank (trim_left-IsLeftClean s)
  | inr solid ↦ rw solid solid
]

-- What keeps the first byte or leaves nothing keeps the text clean.
kept_or_empty :
    (b : Bool) (c : ℕ) (rest : Text) → is_space c ≡ false → IsLeftClean (if b then [] else c ∷ rest)
kept_or_empty true c rest h = tt
kept_or_empty false c rest h = h

trim_right-IsLeftClean : (s : Text) → IsLeftClean s → IsLeftClean (trim_right s)
unfolding trim_right
trim_right-IsLeftClean [] h = tt
trim_right-IsLeftClean (c ∷ s) h = kept_or_empty _ c (trim_right s) h

trim_slashes-IsLeftClean : (s : Text) → IsLeftClean s → IsLeftClean (trim_slashes s)
unfolding trim_slashes
trim_slashes-IsLeftClean [] h = tt
trim_slashes-IsLeftClean (c ∷ s) h = kept_or_empty _ c (trim_slashes s) h

trim_suffix-IsLeftClean : (s suffix : Text) → IsLeftClean s → IsLeftClean (trim_suffix s suffix)
unfolding trim_suffix
trim_suffix-IsLeftClean [] suffix h = tt
trim_suffix-IsLeftClean (c ∷ s) suffix h = kept_or_empty _ c (trim_suffix s suffix) h

-- A clean text that the endpoint's path follows.
abbrev IsEndpoint : Text → Type 0
IsEndpoint s = (front : Text) × (s ≡ front ++ chat_completions_path) × IsLeftClean front

front_of :
    (s : Text)
    → has_suffix s chat_completions_path ≡ true
    → (front : Text) × (s ≡ front ++ chat_completions_path)
unfolding has_suffix is_empty
front_of [] h = absurd (ground arith)
front_of (c ∷ s) h = elim (Bool-cases (text_eq (c ∷ s) chat_completions_path)) [
  | inl same ↦ ([], eq_of_text_eq (c ∷ s) chat_completions_path same)
  | inr other ↦
      let (front, e) = front_of s (ground (arith, h, other)) in (c ∷ front, ap (λ t. c ∷ t) e)
]

front-IsLeftClean :
    (front : Text) → IsLeftClean (front ++ chat_completions_path) → IsLeftClean front
front-IsLeftClean [] h = tt
front-IsLeftClean (c ∷ s) h = h

split_suffix : (s : Text) → IsLeftClean s → has_suffix s chat_completions_path ≡ true → IsEndpoint s
split_suffix s clean h =
    let (front, e) = front_of s h in (front, e, front-IsLeftClean front (subst IsLeftClean e clean))

endpoint-IsEndpoint : (s : Text) → IsLeftClean s → IsEndpoint (endpoint s)
unfolding endpoint
endpoint-IsEndpoint s clean = elim (Bool-cases (has_suffix s chat_completions_path)) [
  | inl whole ↦ rw whole (split_suffix s clean whole)
  | inr open_end ↦ elim (Bool-cases (has_suffix s (codes "/completions"))) [
    | inl legacy ↦
        rw (open_end, legacy)
          (
            trim_suffix s (codes "/completions"),
            refl,
            trim_suffix-IsLeftClean s (codes "/completions") clean,
          )
    | inr bare ↦ rw (open_end, bare) (s, refl, clean)
  ]
]

trim_right-path :
    (front : Text) → trim_right (front ++ chat_completions_path) ≡ front ++ chat_completions_path
unfolding trim_right is_empty
trim_right-path [] = refl
trim_right-path (c ∷ []) = refl
trim_right-path (c ∷ d ∷ s) = rw (trim_right-path (d ∷ s)) refl

trim_slashes-path :
    (front : Text) → trim_slashes (front ++ chat_completions_path) ≡ front ++ chat_completions_path
unfolding trim_slashes is_empty
trim_slashes-path [] = refl
trim_slashes-path (c ∷ []) = refl
trim_slashes-path (c ∷ d ∷ s) = rw (trim_slashes-path (d ∷ s)) refl

trim_left-path :
    (front : Text)
    → IsLeftClean front
    → trim_left (front ++ chat_completions_path) ≡ front ++ chat_completions_path
unfolding trim_left
trim_left-path [] h = refl
trim_left-path (c ∷ s) h = rw h refl

has_suffix-path :
    (front : Text) → has_suffix (front ++ chat_completions_path) chat_completions_path ≡ true
unfolding has_suffix text_eq
has_suffix-path [] = refl
has_suffix-path (c ∷ s) = ground (arith, has_suffix-path s)

endpoint_fixed :
    (s : Text)
    → IsEndpoint s
    → (has_suffix s chat_completions_path ≡ true) × (chat_completions s ≡ s)
unfolding chat_completions trim_space endpoint
endpoint_fixed s (front, e, clean) =
    rw
      (
        e,
        trim_left-path front clean,
        trim_right-path front,
        trim_slashes-path front,
        has_suffix-path front,
      )
      (refl, refl)

resolved : (base_url : Text) → IsEndpoint (chat_completions base_url)
unfolding chat_completions trim_space
resolved base_url =
    let blank_free = trim_left base_url in
    endpoint-IsEndpoint (trim_slashes (trim_right blank_free)) (
      trim_slashes-IsLeftClean (trim_right blank_free)
        (trim_right-IsLeftClean blank_free (trim_left-IsLeftClean base_url)))

-- The address ends in the path of the endpoint, and resolving it again gives the same address.
pub chat_completions_idem :
    (base_url : Text)
    → (has_suffix (chat_completions base_url) chat_completions_path ≡ true)
      × (chat_completions (chat_completions base_url) ≡ chat_completions base_url)
chat_completions_idem base_url = endpoint_fixed (chat_completions base_url) (resolved base_url)
