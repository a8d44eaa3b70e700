-- ===== src/Translate/Modality.antt =====
-- internal/translate/modality.go: the content blocks that a model cannot read, which a placeholder replaces.
-- A body is a tree, so a message that the source changes in place is put back where it stood.
pub mod Readable
use ocfp.Prelude.{
  Bool, true, false, not, ◌&&◌, ◌||◌, Option, none, some, List, [], ◌∷◌, ◌++◌, Bytes, bytes, ◌==◌,
  if◌then◌else◌, is_some,
}
use ocfp.Prelude.GoMap
use ocfp.Prelude.GoMap.{Map}
use ocfp.Jsonx.{Json, as_obj, as_arr, as_str, read, obj, arr, items, fields}
use ocfp.Identity.Session.{after_prefix}

pub record Abilities : Type 0 where
  pub vision : Bool
  pub audio_input : Bool
  pub pdf : Bool

-- what a block needs; no block needs video
pub data Kind : Type 0 where
  image audio document : Kind

abbrev pub modality_allowed : Abilities → Kind → Bool
modality_allowed m Kind.image = m.vision
modality_allowed m Kind.audio = m.audio_input
modality_allowed m Kind.document = m.pdf

abbrev pub placeholder : Kind → Bool → Bytes
placeholder Kind.image true = bytes "[image omitted: model has no vision support]"
placeholder Kind.audio true = bytes "[audio omitted: model has no audio support]"
placeholder Kind.document true = bytes "[file omitted: model has no document support]"
placeholder Kind.image false = bytes "[Previous image omitted from context.]"
placeholder Kind.audio false = bytes "[Previous audio omitted from context.]"
placeholder Kind.document false = bytes "[Previous file omitted from context.]"

abbrev pub same_kind : Kind → Kind → Bool
same_kind Kind.image Kind.image = true
same_kind Kind.audio Kind.audio = true
same_kind Kind.document Kind.document = true
same_kind _ _ = false

unfoldable pub append_unique : List Kind → Kind → List Kind
append_unique [] v = v ∷ []
append_unique (s ∷ list) v =
    let rest = append_unique list v in if same_kind s v then s ∷ list else s ∷ rest

-- the kind by a block's type: of a Chat block, and of a Responses block
unfoldable pub chat_kind : Bytes → Option Kind
chat_kind type =
    if type == bytes "image_url" || type == bytes "image"
    then some Kind.image
    else if type == bytes "input_audio" || type == bytes "audio_url"
    then some Kind.audio
    else if type == bytes "file"
    then some Kind.document
    else none

unfoldable pub responses_kind : Bytes → Option Kind
responses_kind type =
    if type == bytes "input_image"
    then some Kind.image
    else if type == bytes "input_file"
    then some Kind.document
    else none

-- a format: its kinds, and the type of the text part that stands for a removed block
pub record Format : Type 0 where
  pub kind_of : Bytes → Option Kind
  pub text_type : Bytes

abbrev pub chat : Format
unfolding chat_kind
chat = record { kind_of = chat_kind; text_type = bytes "text" }

abbrev pub responses : Format
unfolding responses_kind
responses = record { kind_of = responses_kind; text_type = bytes "input_text" }

abbrev pub is_refused : Abilities → Option Kind → Bool
is_refused m none = false
is_refused m (some k) = not (modality_allowed m k)

abbrev pub remember : List Kind → Option Kind → List Kind
unfolding append_unique
remember removed none = removed
remember removed (some kind) = append_unique removed kind

abbrev starts : Bytes → Bytes → Bool
starts p s = is_some (after_prefix p s)

module _ {F : Type 0} where
  -- a value that is no object needs nothing
  abbrev pub needs : Format → Json F → Option Kind
  needs format (Json.object m) = format.kind_of (as_str (read (fields m) (bytes "type")))
  needs format _ = none

  abbrev pub text_part : Format → Bool → Kind → Json F
  text_part format is_last kind = obj (
      (bytes "type", Json.string format.text_type)
      ∷ (bytes "text", Json.string (placeholder kind is_last))
      ∷ [])

  abbrev pub text_parts : Format → Bool → List Kind → List (Json F)
  text_parts format is_last [] = []
  text_parts format is_last (kind ∷ kinds) =
      text_part format is_last kind ∷ text_parts format is_last kinds

  -- the blocks that stay, and a placeholder for each kind that was removed, in the order of removal
  unfoldable pub filter_from : Format → Abilities → Bool → List Kind → List (Json F) → List (Json F)
  unfolding remember
  filter_from format m is_last removed [] = text_parts format is_last removed
  filter_from format m is_last removed (block ∷ blocks) =
      let kind = needs format block in
      let without = filter_from format m is_last (remember removed kind) blocks in
      let kept = filter_from format m is_last removed blocks in
      if is_refused m kind then without else block ∷ kept

  abbrev pub filter_blocks : Format → Abilities → Bool → List (Json F) → List (Json F)
  unfolding filter_from
  filter_blocks format m is_last blocks = filter_from format m is_last [] blocks

  -- content that is no array stays
  abbrev pub with_content : Format → Abilities → Bool → Json F → Map (Json F) → Map (Json F)
  unfolding filter_blocks
  with_content format m is_last (Json.array blocks) o =
      GoMap.put (bytes "content") (arr (filter_blocks format m is_last (items blocks))) o
  with_content format m is_last _ o = o

  abbrev is_image_attachment : Option (Map (Json F)) → Bool
  is_image_attachment none = false
  is_image_attachment (some a) =
      starts (bytes "image/") (as_str (read a (bytes "contentType")))
      || starts (bytes "data:image/") (as_str (read a (bytes "url")))

  abbrev without_images : List (Json F) → List (Json F)
  without_images [] = []
  without_images (v ∷ vs) =
      let rest = without_images vs in if is_image_attachment (as_obj v) then rest else v ∷ rest

  unfoldable pub strip_image_attachments : Bytes → Map (Json F) → Map (Json F)
  unfolding after_prefix
  strip_image_attachments key o = elim (as_arr (read o key)) [
    | none ↦ o
    | some vs ↦ GoMap.put key (arr (without_images vs)) o
  ]

  abbrev drop_images : Map (Json F) → Map (Json F)
  drop_images o =
      if is_some (as_arr (read o (bytes "images"))) then GoMap.delete (bytes "images") o else o

  -- what only the Chat format has beside its content
  abbrev pub strip_attachments : Bool → Abilities → Map (Json F) → Map (Json F)
  unfolding strip_image_attachments
  strip_attachments true m o =
      if m.vision
      then o
      else strip_image_attachments (bytes "attachments")
          (strip_image_attachments (bytes "experimental_attachments") (drop_images o))
  strip_attachments false m o = o

  abbrev pub strip_message : Bool → Format → Abilities → Bool → Json F → Json F
  unfolding with_content strip_attachments
  strip_message is_chat format m is_last (Json.object o) =
      let o' = strip_attachments is_chat m (fields o) in
      obj (with_content format m is_last (read o' (bytes "content")) o')
  strip_message is_chat format m is_last v = v

  abbrev is_nil : List (Json F) → Bool
  is_nil [] = true
  is_nil (_ ∷ _) = false

  unfoldable pub strip_messages : Bool → Format → Abilities → List (Json F) → List (Json F)
  unfolding strip_message
  strip_messages is_chat format m [] = []
  strip_messages is_chat format m (v ∷ vs) =
      strip_message is_chat format m (is_nil vs) v ∷ strip_messages is_chat format m vs

  abbrev pub strip_list : Bool → Format → Abilities → Bytes → Json F → Map (Json F) → Map (Json F)
  unfolding strip_messages
  strip_list is_chat format m key (Json.array vs) body =
      GoMap.put key (arr (strip_messages is_chat format m (items vs))) body
  strip_list is_chat format m key _ body = body

  -- the body, and whether the model is one that is stripped for
  unfoldable pub strip_unsupported_modalities :
      Map (Json F) → Bool → Abilities → Map (Json F) × Bool
  unfolding strip_list chat responses
  strip_unsupported_modalities body source_is_responses m =
      if m.vision && m.audio_input && m.pdf
      then (body, false)
      else if source_is_responses
      then (strip_list false responses m (bytes "input") (read body (bytes "input")) body, true)
      else (strip_list true chat m (bytes "messages") (read body (bytes "messages")) body, true)
