-- ===== src/Media/Stripped.antt =====
-- What a model does not accept does not reach it.
use mathlib.Core.List.{cons-ne-nil}
use muhiya_workspace.Prelude.{
  ◌≡◌, ◌≢◌, ◌⊎◌, inl, inr, refl, ap, ◌∙◌, Bool, true, false, ◌&&◌, Option, none, some, List, [],
  ◌∷◌, ◌++◌, arith, Bool-cases, if◌then◌else◌,
}
use muhiya_workspace.Prelude.Text.{Text, codes, text_eq}
use muhiya_workspace.Prelude.Json
use muhiya_workspace.Prelude.Json.{
  Json, Items, nil, cons, Fields, str, arr, obj, null, bool, float, int, get-set_other,
}
use muhiya_workspace.Media.{
  MediaKind, image, audio, video, document, MediaNeeds, content_part_type, media_kind_for_part_type,
  note_kind, part_kind, OpenaiMessage, note_parts, parts_of, note_messages,
  detect_media_needs_openai, MediaModel, model_supports_media_kind, model_supports_media, is_seen,
  refuse_kind, refused_kind, add_kind, strip_parts, notes_of, strip_media_from_parts, part_text,
  with_text, append_note, strip_content, strip_messages, strip_unsupported_media_parts, join_lines,
}

-- Whether a model accepts every part.
unfoldable pub accepts_parts : MediaModel → Items → Bool
unfolding model_supports_media_kind part_kind
accepts_parts m nil = true
accepts_parts m (cons part parts) =
    model_supports_media_kind m (part_kind part) && accepts_parts m parts

unfoldable pub accepts_messages : MediaModel → List OpenaiMessage → Bool
unfolding accepts_parts
accepts_messages m [] = true
accepts_messages m (message ∷ messages) =
    accepts_parts m (parts_of message.content) && accepts_messages m messages

not_refused :
    (m : MediaModel) (kind : Option MediaKind)
    → refuse_kind m kind ≡ none
    → model_supports_media_kind m kind ≡ true
unfolding refuse_kind model_supports_media_kind
not_refused m none h = refl
not_refused m (some kind) h = elim (Bool-cases (model_supports_media_kind m (some kind))) [
  | inl accepted ↦ accepted
  | inr other ↦ absurd (ground (arith, h, other))
]

refusal : (kind : Option MediaKind) → (kind ≡ none) ⊎ ((k : MediaKind) × (kind ≡ some k))
refusal none = inl refl
refusal (some kind) = inr (kind, refl)

strip_parts_accepted :
    (m : MediaModel) (seen : List MediaKind) (parts : Items)
    → accepts_parts m (strip_parts m seen parts).0 ≡ true
unfolding strip_parts accepts_parts refused_kind
strip_parts_accepted m seen nil = refl
strip_parts_accepted m seen (cons part parts) = elim (refusal (refuse_kind m (part_kind part))) [
  | inl kept ↦
      rw (accepts_parts, kept)
        (ground (arith, not_refused m (part_kind part) kept, strip_parts_accepted m seen parts))
  | inr (kind, refused) ↦
      rw (accepts_parts, refused) (strip_parts_accepted m (add_kind kind seen) parts)
]

snoc-ne-nil : (seen : List MediaKind) (kind : MediaKind) → seen ++ (kind ∷ []) ≢ []
snoc-ne-nil [] kind = cons-ne-nil kind []
snoc-ne-nil (k ∷ seen) kind = cons-ne-nil k (seen ++ (kind ∷ []))

add_kind-ne-nil : (kind : MediaKind) (seen : List MediaKind) → add_kind kind seen ≢ []
unfolding is_seen
add_kind-ne-nil kind [] = cons-ne-nil kind []
add_kind-ne-nil kind (k ∷ seen) =
    if_ne (is_seen kind (k ∷ seen)) _ _ (cons-ne-nil k seen) (snoc-ne-nil (k ∷ seen) kind)
  where
    if_ne : (b : Bool) (xs ys : List MediaKind) → xs ≢ [] → ys ≢ [] → (if b then xs else ys) ≢ []
    if_ne true xs ys hx hy = hx
    if_ne false xs ys hx hy = hy

seen-ne-nil :
    (m : MediaModel) (seen : List MediaKind) (parts : Items)
    → seen ≢ []
    → (strip_parts m seen parts).1 ≢ []
unfolding strip_parts refused_kind
seen-ne-nil m seen nil h = h
seen-ne-nil m seen (cons part parts) h = elim (refusal (refuse_kind m (part_kind part))) [
  | inl kept ↦ rw (strip_parts, kept) (seen-ne-nil m seen parts h)
  | inr (kind, refused) ↦
      rw (strip_parts, refused)
        (seen-ne-nil m (add_kind kind seen) parts (add_kind-ne-nil kind seen))
]

-- Where nothing is dropped, every part is accepted.
none_dropped :
    (m : MediaModel) (parts : Items)
    → (strip_parts m [] parts).1 ≡ []
    → accepts_parts m parts ≡ true
unfolding strip_parts accepts_parts refused_kind
none_dropped m nil h = refl
none_dropped m (cons part parts) h = elim (refusal (refuse_kind m (part_kind part))) [
  | inl kept ↦ ground (
    arith,
    not_refused m (part_kind part) kept,
    none_dropped m parts (rw (strip_parts, kept) at h),
  )
  | inr (kind, refused) ↦ absurd (
      seen-ne-nil m (add_kind kind []) parts (add_kind-ne-nil kind [])
        (rw (strip_parts, refused) at h))
]

-- A new text does not change what kind a part is.
kind-with_text : (text : Text) (part : Json) → part_kind (with_text text part) ≡ part_kind part
unfolding part_kind content_part_type text_eq
kind-with_text text (obj part) =
    ap (λ t. media_kind_for_part_type (elim t as (λ _. Text) [ some (str s) ↦ s | _ ↦ [] ]))
      (get-set_other (codes "text") (codes "type") (str text) part refl)
kind-with_text text null = refl
kind-with_text text (bool b) = refl
kind-with_text text (float n) = refl
kind-with_text text (int n) = refl
kind-with_text text (str s) = refl
kind-with_text text (arr items) = refl

accepts-with_text :
    (m : MediaModel) (text : Text) (part : Json) (parts : Items)
    → accepts_parts m (cons (with_text text part) parts) ≡ accepts_parts m (cons part parts)
unfolding accepts_parts
accepts-with_text m text part parts =
    ap (λ kind. model_supports_media_kind m kind && accepts_parts m parts)
      (kind-with_text text part)

accepts_head :
    (m : MediaModel) (part : Json) (parts rest : Items)
    → accepts_parts m (cons part parts) ≡ true
    → accepts_parts m rest ≡ true
    → accepts_parts m (cons part rest) ≡ true
unfolding accepts_parts
accepts_head m part parts rest h k = ground (arith, h, k)

accepts_tail :
    (m : MediaModel) (part : Json) (parts : Items)
    → accepts_parts m (cons part parts) ≡ true
    → accepts_parts m parts ≡ true
unfolding accepts_parts
accepts_tail m part parts h = ground (arith, h)

option_cases : (o : Option Text) → (o ≡ none) ⊎ ((t : Text) × (o ≡ some t))
option_cases none = inl refl
option_cases (some t) = inr (t, refl)

append_note_accepted :
    (m : MediaModel) (note : Text) (parts : Items)
    → accepts_parts m parts ≡ true
    → accepts_parts m (append_note note parts) ≡ true
unfolding accepts_parts append_note part_kind content_part_type media_kind_for_part_type text_eq
    Json.get
append_note_accepted m note nil h = refl
append_note_accepted m note (cons part parts) h = elim (option_cases (part_text part)) [
  | inl no_text ↦
      rw (append_note, no_text)
        (accepts_head m part parts (append_note note parts) h
          (append_note_accepted m note parts (accepts_tail m part parts h)))
  | inr (text, is_text) ↦
      rw (append_note, is_text) (accepts-with_text m (text ++ (10 ∷ note)) part parts ∙ h)
]

-- one message after the strip
strip_content_accepted :
    (m : MediaModel) (content : Json) → accepts_parts m (parts_of (strip_content m content)) ≡ true
unfolding strip_content strip_media_from_parts accepts_parts
strip_content_accepted m (arr parts) = elim (dropped_cases (strip_parts m [] parts).1) [
  | inl nothing ↦ rw (strip_content, nothing) (none_dropped m parts nothing)
  | inr (kind, kinds, something) ↦
      rw (strip_content, something)
        (append_note_accepted m (join_lines (notes_of (kind ∷ kinds))) (strip_parts m [] parts).0
          (strip_parts_accepted m [] parts))
]
  where
    dropped_cases :
        (ks : List MediaKind)
        → (ks ≡ []) ⊎ ((k : MediaKind) × (rest : List MediaKind) × (ks ≡ k ∷ rest))
    dropped_cases [] = inl refl
    dropped_cases (k ∷ ks) = inr (k, ks, refl)
strip_content_accepted m null = refl
strip_content_accepted m (bool b) = refl
strip_content_accepted m (float n) = refl
strip_content_accepted m (int n) = refl
strip_content_accepted m (str s) = refl
strip_content_accepted m (obj fields) = refl

strip_messages_accepted :
    (m : MediaModel) (messages : List OpenaiMessage)
    → accepts_messages m (strip_messages m messages) ≡ true
unfolding accepts_messages strip_messages
strip_messages_accepted m [] = refl
strip_messages_accepted m (message ∷ messages) =
    rw (strip_content_accepted m message.content, strip_messages_accepted m messages) refl

-- a model that supports the noted needs supported those noted before, and accepts the part
note_kind_supported :
    (m : MediaModel) (needs : MediaNeeds) (kind : Option MediaKind)
    → model_supports_media m (note_kind needs kind) ≡ true
    → (model_supports_media m needs ≡ true) × (model_supports_media_kind m kind ≡ true)
unfolding model_supports_media note_kind model_supports_media_kind
note_kind_supported m needs none h = (h, refl)
note_kind_supported m needs (some image) h = ground (arith, h)
note_kind_supported m needs (some audio) h = ground (arith, h)
note_kind_supported m needs (some video) h = ground (arith, h)
note_kind_supported m needs (some document) h = ground (arith, h)

note_parts_supported :
    (m : MediaModel) (needs : MediaNeeds) (parts : Items)
    → model_supports_media m (note_parts needs parts) ≡ true
    → (model_supports_media m needs ≡ true) × (accepts_parts m parts ≡ true)
unfolding note_parts accepts_parts
note_parts_supported m needs nil h = (h, refl)
note_parts_supported m needs (cons part parts) h =
    let (before, rest) = note_parts_supported m (note_kind needs (part_kind part)) parts h in
    let (earlier, own) = note_kind_supported m needs (part_kind part) before in
    (earlier, rw (own, rest) refl)

note_messages_supported :
    (m : MediaModel) (needs : MediaNeeds) (messages : List OpenaiMessage)
    → model_supports_media m (note_messages needs messages) ≡ true
    → (model_supports_media m needs ≡ true) × (accepts_messages m messages ≡ true)
unfolding note_messages accepts_messages
note_messages_supported m needs [] h = (h, refl)
note_messages_supported m needs (message ∷ messages) h =
    let (before, rest) =
      note_messages_supported m (note_parts needs (parts_of message.content)) messages h in
    let (earlier, own) = note_parts_supported m needs (parts_of message.content) before in
    (earlier, rw (own, rest) refl)

-- Whatever a client sends, after the strip the model accepts every part of every message; this also
-- holds where the messages are passed on because the model supports all that was detected in them.
pub strip_unsupported_media_parts_accepted :
    (messages : List OpenaiMessage) (m : MediaModel)
    → accepts_messages m (strip_unsupported_media_parts messages (some m)) ≡ true
unfolding strip_unsupported_media_parts detect_media_needs_openai
strip_unsupported_media_parts_accepted messages m =
    elim (Bool-cases (model_supports_media m (detect_media_needs_openai messages))) [
      | inl supported ↦ rw supported ((note_messages_supported m _ messages supported).1)
      | inr other ↦ rw other (strip_messages_accepted m messages)
    ]
