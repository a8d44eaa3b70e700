-- ===== src/Tests/Frames.antt =====
-- The theorem on frames, at a payload whose null usage is cleaned away.
use ocfp.Prelude.{ℕ, ◌≡◌, refl, true, false, some, [], ◌∷◌, Bytes, bytes, ◌==◌, if◌then◌else◌, eqb}
use ocfp.Jsonx.{Json, Fields}
use ocfp.Relay.Frames.{Codec, clean_usage_payload, data_line, classify_data_line, parse_data_line}
use ocfp.Relay.Frames.Cleaning.{Cleans}
use ocfp.Relay.Frames.Reading.{parse_data_line-data_line}

abbrev trim_blank : Bytes → Bytes
trim_blank [] = []
trim_blank (c ∷ s) = if eqb c 32 then s else c ∷ s

abbrev codec : Codec ℕ
codec = record {
  marshal = λ v. bytes "{}";
  unmarshal = λ s. some (Json.object Fields.end);
  trim_space = trim_blank;
}

abbrev payload : Fields ℕ
payload = Fields.field (bytes "usage") Json.null Fields.end

parse_data_line-data_line_example :
    (p : Fields ℕ) × Cleans payload p
    × (classify_data_line codec (data_line codec payload)
        ≡ record { parsed = some p; is_data = true; is_done = false; non_object = false })
    × (parse_data_line codec (data_line codec payload) ≡ (some p, true))
unfolding clean_usage_payload ◌==◌
parse_data_line-data_line_example = parse_data_line-data_line codec payload (record {
  rest = bytes "}";
  braced = refl;
  keeps_line = refl;
  drops_blank = refl;
  decodes = refl;
})
