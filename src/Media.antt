-- ===== src/Media.antt =====
-- proxy/media.go: which modalities a request carries, which a model accepts, and what is taken out of
-- a request for a model that does not accept it. A message's content array is one list of its own:
-- what another holder of the same array sees is not modelled.
pub mod Stripped
use muhiya_workspace.Prelude.{
  ℕ, Bool, true, false, not, ◌&&◌, ◌||◌, Option, none, some, List, [], ◌∷◌, ◌++◌, if◌then◌else◌,
}
use muhiya_workspace.Prelude.Text.{Text, codes, text_eq, is_empty}
use muhiya_workspace.Prelude.Ascii.{to_lower, trim_space, contains}
use muhiya_workspace.Prelude.Decimal.{split}
use muhiya_workspace.Prelude.Json
use muhiya_workspace.Prelude.Json.{Json, Items, nil, cons, Fields, field, end, str, arr, obj}
use muhiya_workspace.Thinking.{is_open_router_base}

pub data MediaKind : Type 0 where
  image audio video document : MediaKind

pub record MediaNeeds : Type 0 where
  pub vision : Bool
  pub audio_input : Bool
  pub video_input : Bool
  pub documents : Bool

unfoldable pub any_media : MediaNeeds → Bool
any_media n = n.vision || n.audio_input || n.video_input || n.documents

unfoldable pub content_part_type : Json → Text
unfolding Json.get
content_part_type (obj part) = elim (Json.get (codes "type") part) [ some (str t) ↦ t | _ ↦ [] ]
content_part_type _ = []

-- `mediaKindForPartType`, with `none` for `""`
unfoldable pub media_kind_for_part_type : Text → Option MediaKind
unfolding text_eq
media_kind_for_part_type part_type =
    if text_eq part_type (codes "image_url")
    then some image
    else if text_eq part_type (codes "input_audio")
    then some audio
    else if text_eq part_type (codes "video_url")
    then some video
    else if text_eq part_type (codes "file")
    then some document
    else none

unfoldable pub note_kind : MediaNeeds → Option MediaKind → MediaNeeds
note_kind n none = n
note_kind n (some image) = record n { vision = true }
note_kind n (some audio) = record n { audio_input = true }
note_kind n (some video) = record n { video_input = true }
note_kind n (some document) = record n { documents = true }

unfoldable pub part_kind : Json → Option MediaKind
unfolding content_part_type media_kind_for_part_type
part_kind part = media_kind_for_part_type (content_part_type part)

-- The content of a message is a text or an array of parts.
pub record OpenaiMessage : Type 0 where
  pub role : Text
  pub content : Json

unfoldable pub note_parts : MediaNeeds → Items → MediaNeeds
unfolding note_kind part_kind
note_parts n nil = n
note_parts n (cons part parts) = note_parts (note_kind n (part_kind part)) parts

abbrev pub parts_of : Json → Items
parts_of (arr parts) = parts
parts_of _ = nil

unfoldable pub note_messages : MediaNeeds → List OpenaiMessage → MediaNeeds
unfolding note_parts
note_messages n [] = n
note_messages n (message ∷ messages) =
    note_messages (note_parts n (parts_of message.content)) messages

abbrev pub no_needs : MediaNeeds
no_needs = record { vision = false; audio_input = false; video_input = false; documents = false }

unfoldable pub detect_media_needs_openai : List OpenaiMessage → MediaNeeds
unfolding note_messages
detect_media_needs_openai messages = note_messages no_needs messages

-- the types of the blocks of one message of the Anthropic dialect
unfoldable pub note_blocks : MediaNeeds → List Text → MediaNeeds
unfolding text_eq
note_blocks n [] = n
note_blocks n (type ∷ types) =
    if text_eq type (codes "image")
    then note_blocks (record n { vision = true }) types
    else if text_eq type (codes "document")
    then note_blocks (record n { documents = true }) types
    else note_blocks n types

unfoldable pub detect_media_needs_anthropic : MediaNeeds → List (List Text) → MediaNeeds
unfolding note_blocks
detect_media_needs_anthropic n [] = n
detect_media_needs_anthropic n (types ∷ messages) =
    detect_media_needs_anthropic (note_blocks n types) messages

-- the fields of `db.Model` that are read here
pub record MediaModel : Type 0 where
  pub name : Text
  pub target_model : Text
  pub supports_vision : Bool
  pub supports_audio : Bool
  pub supports_video : Bool
  pub supports_documents : Bool

abbrev vision_keywords : List Text
vision_keywords =
    codes "gpt-4o"
    ∷ codes "claude-3-5-sonnet"
    ∷ codes "vision"
    ∷ codes "-vl"
    ∷ codes "gemini"
    ∷ codes "gemma"
    ∷ codes "pixtral"
    ∷ codes "llava"
    ∷ []

unfoldable pub either_contains : Text → Text → List Text → Bool
unfolding contains
either_contains name target [] = false
either_contains name target (keyword ∷ keywords) =
    if contains name keyword || contains target keyword
    then true
    else either_contains name target keywords

unfoldable pub model_matches_vision : MediaModel → Bool
unfolding to_lower either_contains
model_matches_vision m =
    if m.supports_vision
    then true
    else either_contains (to_lower m.name) (to_lower m.target_model) vision_keywords

unfoldable pub model_supports_media_kind : MediaModel → Option MediaKind → Bool
unfolding model_matches_vision
model_supports_media_kind m none = true
model_supports_media_kind m (some image) = model_matches_vision m
model_supports_media_kind m (some audio) = m.supports_audio
model_supports_media_kind m (some video) = m.supports_video
model_supports_media_kind m (some document) = m.supports_documents

unfoldable pub model_supports_media : MediaModel → MediaNeeds → Bool
unfolding model_matches_vision
model_supports_media m needs =
    if needs.vision && not (model_matches_vision m)
    then false
    else if needs.audio_input && not m.supports_audio
    then false
    else if needs.video_input && not m.supports_video
    then false
    else if needs.documents && not m.supports_documents
    then false
    else true

-- The note is not ASCII: its dash is written as its three bytes.
abbrev omitted : Text → Text → Text
omitted kind reason =
    codes "["
    ++ (kind
        ++ (codes " omitted "
            ++ (226 ∷ 128 ∷ 148 ∷ (codes " this model " ++ (reason ++ codes "]")))))

unfoldable pub media_omitted_note : MediaKind → Text
media_omitted_note image = omitted (codes "image") (codes "reads text only")
media_omitted_note audio = omitted (codes "audio") (codes "does not accept audio input")
media_omitted_note video = omitted (codes "video") (codes "does not accept video input")
media_omitted_note document = omitted (codes "document") (codes "does not accept document input")

abbrev same_kind : MediaKind → MediaKind → Bool
same_kind image image = true
same_kind audio audio = true
same_kind video video = true
same_kind document document = true
same_kind _ _ = false

unfoldable pub is_seen : MediaKind → List MediaKind → Bool
is_seen kind [] = false
is_seen kind (k ∷ kinds) = if same_kind k kind then true else is_seen kind kinds

-- the kind where the model does not accept it
unfoldable pub refuse_kind : MediaModel → Option MediaKind → Option MediaKind
unfolding model_supports_media_kind
refuse_kind m none = none
refuse_kind m (some kind) =
    if not (model_supports_media_kind m (some kind)) then some kind else none

unfoldable pub refused_kind : MediaModel → Json → Option MediaKind
unfolding part_kind refuse_kind
refused_kind m part = refuse_kind m (part_kind part)

abbrev add_kind : MediaKind → List MediaKind → List MediaKind
add_kind kind seen = if is_seen kind seen then seen else (seen ++ (kind ∷ []))

-- the kept parts, and the kinds that were dropped, each once and in order
unfoldable pub strip_parts : MediaModel → List MediaKind → Items → Items × List MediaKind
unfolding refused_kind is_seen
strip_parts m seen nil = (nil, seen)
strip_parts m seen (cons part parts) = elim (refused_kind m part) [
  | none ↦ let (kept, dropped) = strip_parts m seen parts in (cons part kept, dropped)
  | some kind ↦ strip_parts m (add_kind kind seen) parts
]

unfoldable pub notes_of : List MediaKind → List Text
unfolding media_omitted_note
notes_of [] = []
notes_of (kind ∷ kinds) = media_omitted_note kind ∷ notes_of kinds

unfoldable pub strip_media_from_parts : Items → MediaModel → Items × List Text
unfolding strip_parts notes_of
strip_media_from_parts parts m =
    let (kept, dropped) = strip_parts m [] parts in (kept, notes_of dropped)

-- `strings.Join(notes, "\n")`
unfoldable pub join_lines : List Text → Text
join_lines [] = []
join_lines (s ∷ []) = s
join_lines (s ∷ t ∷ rest) = s ++ (10 ∷ join_lines (t ∷ rest))

-- the text of a part of type `text`
unfoldable pub part_text : Json → Option Text
unfolding Json.get text_eq
part_text (obj part) = elim (Json.get (codes "type") part) [
  | some (str t) ↦
      if text_eq t (codes "text")
      then elim (Json.get (codes "text") part) [ some (str text) ↦ some text | _ ↦ none ]
      else none
  | _ ↦ none
]
part_text _ = none

abbrev with_text : Text → Json → Json
with_text text (obj part) = obj (Json.set (codes "text") (str text) part)
with_text text part = part

abbrev pub text_part : Text → Json
text_part text =
    obj (field (codes "type") (str (codes "text")) (field (codes "text") (str text) end))

-- the note goes behind the first text, or into a part of its own at the end
unfoldable pub append_note : Text → Items → Items
unfolding part_text Json.set
append_note note nil = cons (text_part note) nil
append_note note (cons part parts) = elim (part_text part) [
  | some text ↦ cons (with_text (text ++ (10 ∷ note)) part) parts
  | none ↦ cons part (append_note note parts)
]

unfoldable pub append_notes_to_parts : Items → List Text → Items
unfolding append_note join_lines
append_notes_to_parts kept notes = append_note (join_lines notes) kept

-- the content of one message
unfoldable pub strip_content : MediaModel → Json → Json
unfolding strip_media_from_parts append_notes_to_parts
strip_content m (arr parts) =
    let (kept, notes) = strip_media_from_parts parts m in
    elim notes [ [] ↦ arr parts | note ∷ rest ↦ arr (append_notes_to_parts kept (note ∷ rest)) ]
strip_content m content = content

unfoldable pub strip_messages : MediaModel → List OpenaiMessage → List OpenaiMessage
unfolding strip_content
strip_messages m [] = []
strip_messages m (message ∷ messages) =
    record message { content = strip_content m message.content } ∷ strip_messages m messages

unfoldable pub strip_unsupported_media_parts :
    List OpenaiMessage → Option MediaModel → List OpenaiMessage
unfolding model_supports_media detect_media_needs_openai strip_messages
strip_unsupported_media_parts messages none = messages
strip_unsupported_media_parts messages (some m) =
    if model_supports_media m (detect_media_needs_openai messages)
    then messages
    else strip_messages m messages

-- one message of the decoded body
unfoldable pub strip_message_map : MediaModel → Json → Json
unfolding Json.get Json.set strip_content
strip_message_map m (obj message) = elim (Json.get (codes "content") message) [
  | some (arr parts) ↦ obj (Json.set (codes "content") (strip_content m (arr parts)) message)
  | _ ↦ obj message
]
strip_message_map m message = message

unfoldable pub strip_message_maps : MediaModel → Items → Items
unfolding strip_message_map
strip_message_maps m nil = nil
strip_message_maps m (cons message messages) =
    cons (strip_message_map m message) (strip_message_maps m messages)

unfoldable pub strip_unsupported_media_in_body_map : Fields → Option MediaModel → Fields
unfolding Json.get Json.set strip_message_maps
strip_unsupported_media_in_body_map body none = body
strip_unsupported_media_in_body_map body (some m) = elim (Json.get (codes "messages") body) [
  | some (arr messages) ↦ Json.set (codes "messages") (arr (strip_message_maps m messages)) body
  | _ ↦ body
]

unfoldable pub has_file_part : Items → Bool
unfolding content_part_type text_eq
has_file_part nil = false
has_file_part (cons part parts) =
    if text_eq (content_part_type part) (codes "file") then true else has_file_part parts

unfoldable pub message_has_file : Json → Bool
unfolding Json.get has_file_part
message_has_file (obj message) = elim (Json.get (codes "content") message) [
  | some (arr parts) ↦ has_file_part parts
  | _ ↦ false
]
message_has_file _ = false

unfoldable pub any_file : Items → Bool
unfolding message_has_file
any_file nil = false
any_file (cons message messages) = if message_has_file message then true else any_file messages

unfoldable pub body_map_has_file_part : Fields → Bool
unfolding Json.get any_file
body_map_has_file_part body = elim (Json.get (codes "messages") body) [
  | some (arr messages) ↦ any_file messages
  | _ ↦ false
]

-- of the provider's base URL and its id
unfoldable pub maybe_inject_open_router_pdf_parser : Fields → Option (Text × Text) → Text → Fields
unfolding is_open_router_base text_eq Json.get Json.set body_map_has_file_part trim_space is_empty
maybe_inject_open_router_pdf_parser body none engine = body
maybe_inject_open_router_pdf_parser body (some (base_url, id)) engine =
    let chosen = if is_empty (trim_space engine) then codes "pdf-text" else engine in
    let pdf = obj (field (codes "engine") (str chosen) end) in
    let plugin =
      obj (field (codes "id") (str (codes "file-parser")) (field (codes "pdf") pdf end)) in
    if not (is_open_router_base base_url) && not (text_eq id (codes "openrouter"))
    then body
    else elim (Json.get (codes "plugins") body) [
      | some _ ↦ body
      | none ↦
          if not (body_map_has_file_part body)
          then body
          else Json.set (codes "plugins") (arr (cons plugin nil)) body
    ]

unfoldable pub non_empty_trimmed : List Text → List Text
unfolding trim_space is_empty
non_empty_trimmed [] = []
non_empty_trimmed (part ∷ parts) =
    let rest = non_empty_trimmed parts in
    if is_empty (trim_space part) then rest else trim_space part ∷ rest

unfoldable pub split_mime_list : Text → List Text
unfolding split non_empty_trimmed
split_mime_list s = non_empty_trimmed (split b',' s)

abbrev with_modality : Bool → Text → List Text → List Text
with_modality accepted modality rest = if accepted then modality ∷ rest else rest

unfoldable pub model_input_modalities : MediaModel → List Text
unfolding model_matches_vision
model_input_modalities m =
    codes "text"
    ∷ with_modality (model_matches_vision m) (codes "image") (
        with_modality m.supports_audio (codes "audio") (
          with_modality m.supports_video (codes "video")
            (with_modality m.supports_documents (codes "document") [])))
