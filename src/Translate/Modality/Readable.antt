-- ===== src/Translate/Modality/Readable.antt =====
-- A stripped body holds no block that the model cannot read.
use ocfp.Prelude.{
  ◌≡◌, refl, ap, ◌∙◌, Bool, true, false, not, ◌&&◌, Option, none, List, [], ◌∷◌, Bytes, bytes, ◌==◌,
  Bool-cases, inl, inr,
}
use ocfp.Prelude.GoMap
use ocfp.Prelude.GoMap.{Map, get-put}
use ocfp.Jsonx.{Json, read, read-put_self, as_str, arr, items, items_of, fields, fields-fields_of}
use ocfp.Translate.Modality.{
  Abilities, Kind, Format, chat, responses, chat_kind, responses_kind, needs, is_refused, text_part,
  text_parts, remember, filter_from, with_content, strip_attachments, strip_message, strip_messages,
  strip_list, strip_unsupported_modalities,
}

-- a format whose text part needs nothing
IsPlain : Format → Type 0
IsPlain format = format.kind_of format.text_type ≡ none

module _ {F : Type 0} where
  abbrev pub all_of : (Json F → Bool) → List (Json F) → Bool
  all_of test [] = true
  all_of test (v ∷ vs) = test v && all_of test vs

  pub items-items_of : (vs : List (Json F)) → items (items_of vs) ≡ vs
  items-items_of [] = refl
  items-items_of (v ∷ vs) = ap (λ (t : List (Json F)). v ∷ t) (items-items_of vs)

  -- a block that the model can read
  abbrev pub is_readable : Format → Abilities → Json F → Bool
  is_readable format m v = not (is_refused m (needs format v))

  abbrev pub content_readable : Format → Abilities → Json F → Bool
  content_readable format m (Json.array blocks) = all_of (is_readable format m) (items blocks)
  content_readable format m _ = true

  abbrev pub message_readable : Format → Abilities → Json F → Bool
  message_readable format m (Json.object o) =
      content_readable format m (read (fields o) (bytes "content"))
  message_readable format m _ = true

  -- every message of a list
  abbrev pub list_readable : Format → Abilities → Json F → Bool
  list_readable format m (Json.array vs) = all_of (message_readable format m) (items vs)
  list_readable format m _ = true

text_part-readable :
    (F : Type 0) (format : Format) (m : Abilities) (is_last : Bool) (kind : Kind)
    → IsPlain format
    → is_readable format m (text_part {F = F} format is_last kind) ≡ true
unfolding IsPlain read GoMap.get as_str ◌==◌
text_part-readable F format m is_last kind h = ap (λ (k : Option Kind). not (is_refused m k)) h

text_parts-readable :
    (F : Type 0) (format : Format) (m : Abilities) (is_last : Bool) (kinds : List Kind)
    → IsPlain format
    → all_of (is_readable format m) (text_parts {F = F} format is_last kinds) ≡ true
text_parts-readable F format m is_last [] h = refl
text_parts-readable F format m is_last (kind ∷ kinds) h =
    ap (λ (b : Bool). b && all_of (is_readable format m) (text_parts {F = F} format is_last kinds))
      (text_part-readable F format m is_last kind h)
    ∙ text_parts-readable F format m is_last kinds h

module _ {F : Type 0} where
  filter_from-readable :
      (format : Format) (m : Abilities) (is_last : Bool) (removed : List Kind)
      (blocks : List (Json F))
      → IsPlain format
      → all_of (is_readable format m) (filter_from format m is_last removed blocks) ≡ true
  unfolding filter_from
  filter_from-readable format m is_last removed [] h =
      text_parts-readable F format m is_last removed h
  filter_from-readable format m is_last removed (block ∷ blocks) h =
      elim (Bool-cases (is_refused m (needs format block))) [
        | inl e ↦
            rw e (
              filter_from-readable format m is_last (remember removed (needs format block)) blocks
                h)
        | inr e ↦ rw e (rw e (filter_from-readable format m is_last removed blocks h))
      ]

  with_content-readable :
      (format : Format) (m : Abilities) (is_last : Bool) (v : Json F) (o : Map (Json F))
      → IsPlain format
      → read o (bytes "content") ≡ v
      → content_readable format m (read (with_content format m is_last v o) (bytes "content"))
        ≡ true
  unfolding with_content
  with_content-readable format m is_last (Json.array blocks) o h e =
      let out = filter_from format m is_last [] (items blocks) in
      ap (content_readable format m) (read-put_self (bytes "content") (arr out) o)
      ∙ ap (all_of (is_readable format m)) (items-items_of out)
      ∙ filter_from-readable format m is_last [] (items blocks) h
  with_content-readable format m is_last Json.null o h e = ap (content_readable format m) e
  with_content-readable format m is_last (Json.bool b) o h e = ap (content_readable format m) e
  with_content-readable format m is_last (Json.number n) o h e = ap (content_readable format m) e
  with_content-readable format m is_last (Json.string s) o h e = ap (content_readable format m) e
  with_content-readable format m is_last (Json.object x) o h e = ap (content_readable format m) e

  strip_message-readable :
      (is_chat : Bool) (format : Format) (m : Abilities) (is_last : Bool) (v : Json F)
      → IsPlain format
      → message_readable format m (strip_message is_chat format m is_last v) ≡ true
  unfolding strip_message
  strip_message-readable is_chat format m is_last (Json.object o) h =
      let o' = strip_attachments is_chat m (fields o) in
      ap (λ (x : Map (Json F)). content_readable format m (read x (bytes "content")))
        (fields-fields_of (with_content format m is_last (read o' (bytes "content")) o'))
      ∙ with_content-readable format m is_last (read o' (bytes "content")) o' h refl
  strip_message-readable is_chat format m is_last Json.null h = refl
  strip_message-readable is_chat format m is_last (Json.bool b) h = refl
  strip_message-readable is_chat format m is_last (Json.number n) h = refl
  strip_message-readable is_chat format m is_last (Json.string s) h = refl
  strip_message-readable is_chat format m is_last (Json.array x) h = refl

  strip_messages-readable :
      (is_chat : Bool) (format : Format) (m : Abilities) (vs : List (Json F))
      → IsPlain format
      → all_of (message_readable format m) (strip_messages is_chat format m vs) ≡ true
  unfolding strip_messages
  strip_messages-readable is_chat format m [] h = refl
  strip_messages-readable is_chat format m (v ∷ vs) h =
      ap
        (λ (b : Bool). b && all_of (message_readable format m) (strip_messages is_chat format m vs))
        (strip_message-readable is_chat format m _ v h)
      ∙ strip_messages-readable is_chat format m vs h

  strip_list-readable :
      (is_chat : Bool) (format : Format) (m : Abilities) (key : Bytes) (v : Json F)
      (body : Map (Json F))
      → IsPlain format
      → read body key ≡ v
      → list_readable format m (read (strip_list is_chat format m key v body) key) ≡ true
  unfolding strip_list
  strip_list-readable is_chat format m key (Json.array vs) body h e =
      let out = strip_messages is_chat format m (items vs) in
      ap (list_readable format m) (read-put_self key (arr out) body)
      ∙ ap (all_of (message_readable format m)) (items-items_of out)
      ∙ strip_messages-readable is_chat format m (items vs) h
  strip_list-readable is_chat format m key Json.null body h e = ap (list_readable format m) e
  strip_list-readable is_chat format m key (Json.bool b) body h e = ap (list_readable format m) e
  strip_list-readable is_chat format m key (Json.number n) body h e = ap (list_readable format m) e
  strip_list-readable is_chat format m key (Json.string s) body h e = ap (list_readable format m) e
  strip_list-readable is_chat format m key (Json.object x) body h e = ap (list_readable format m) e

  -- When a model lacks an ability, no content block of any message of a stripped body needs one that it lacks:
  -- of the messages of a Chat body, and of the input of a Responses body.
  pub strip_unsupported_modalities-readable :
      (body : Map (Json F)) (m : Abilities)
      → m.vision && m.audio_input && m.pdf ≡ false
      → (list_readable chat m
            (read (strip_unsupported_modalities body false m).0 (bytes "messages"))
          ≡ true)
        × (list_readable responses m
              (read (strip_unsupported_modalities body true m).0 (bytes "input"))
            ≡ true)
  unfolding strip_unsupported_modalities IsPlain chat responses chat_kind responses_kind ◌==◌
  strip_unsupported_modalities-readable body m lacks = rw lacks (
    strip_list-readable true chat m (bytes "messages") (read body (bytes "messages")) body refl
        refl,
    strip_list-readable false responses m (bytes "input") (read body (bytes "input")) body refl
        refl,
  )
