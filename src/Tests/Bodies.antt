-- ===== src/Tests/Bodies.antt =====
-- The theorem on modalities, at a message with an image and a model without vision.
use ocfp.Prelude.{ℕ, ◌≡◌, refl, true, false, [], ◌∷◌, bytes}
use ocfp.Prelude.GoMap.{Map}
use ocfp.Jsonx.{Json, read, obj, arr}
use ocfp.Translate.Modality.{Abilities, chat, responses, strip_unsupported_modalities}
use ocfp.Translate.Modality.Readable.{list_readable, strip_unsupported_modalities-readable}

abbrev abilities : Abilities
abilities = record { vision = false; audio_input = true; pdf = true }

abbrev body : Map (Json ℕ)
body =
    (
      bytes "messages",
      arr (
          obj (
            (bytes "content", arr (obj ((bytes "type", Json.string (bytes "image_url")) ∷ []) ∷ []))
            ∷ [])
          ∷ []),
    )
    ∷ []

strip_unsupported_modalities-readable_example :
    (list_readable chat abilities
        (read (strip_unsupported_modalities body false abilities).0 (bytes "messages"))
      ≡ true)
    × (list_readable responses abilities
          (read (strip_unsupported_modalities body true abilities).0 (bytes "input"))
        ≡ true)
strip_unsupported_modalities-readable_example =
    strip_unsupported_modalities-readable body abilities refl
