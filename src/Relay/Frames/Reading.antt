-- ===== src/Relay/Frames/Reading.antt =====
-- A frame that is printed is read as what was printed.
use ocfp.Prelude.{
  ◌≡◌, ap, ◌∙◌, Bool, true, false, ◌&&◌, none, some, ◌∷◌, ◌++◌, Bytes, bytes, ◌==◌, if◌then◌else◌,
}
use ocfp.Jsonx.{Json, Fields}
use ocfp.Identity.Session.{after_prefix}
use ocfp.Relay.Frames.Cleaning.{Cleans, clean_usage_payload-Cleans}
use ocfp.Relay.Frames.{
  Codec, Line, clean_usage_payload, data_line, trimmed, data_payload, no_line, decoded,
  payload_line, classify_data_line, parse_data_line,
}

-- What json and strings do for an object: its text starts with a brace and has no white space at either end, so
-- that trimming takes only the blank before it, and decoding undoes encoding.
pub record IsCodec {F : Type 0} (codec : Codec F) (o : Fields F) : Type 0 where
  pub rest : Bytes
  pub braced : codec.marshal (Json.object o) ≡ 123 ∷ rest
  pub keeps_line :
      codec.trim_space (bytes "data: " ++ codec.marshal (Json.object o))
      ≡ bytes "data: " ++ codec.marshal (Json.object o)
  pub drops_blank :
      codec.trim_space (32 ∷ codec.marshal (Json.object o)) ≡ codec.marshal (Json.object o)
  pub decodes : codec.unmarshal (codec.marshal (Json.object o)) ≡ some (Json.object o)

module _ {F : Type 0} (codec : Codec F) where
  data_payload-data_line :
      (o : Fields F)
      → IsCodec codec (clean_usage_payload o)
      → data_payload codec (data_line codec o)
        ≡ some (codec.marshal (Json.object (clean_usage_payload o)))
  unfolding data_payload data_line after_prefix
  data_payload-data_line o good =
      ap (λ (s : Bytes). trimmed codec (after_prefix (bytes "data:") s)) good.keeps_line
      ∙ ap (λ (s : Bytes). some s) good.drops_blank

  not_done :
      (o : Fields F) → IsCodec codec o → codec.marshal (Json.object o) == bytes "[DONE]" ≡ false
  unfolding ◌==◌
  not_done o good = ap (λ (s : Bytes). s == bytes "[DONE]") good.braced

  -- If the text of the cleaned payload starts with a brace and has no white space at either end, and decoding
  -- undoes encoding, the data line of a frame is read as a payload that is the one printed without a null
  -- usage, without a null perf_metrics in a usage object, cleaned in the same way inside a response object, and
  -- with every other field as it was; as a data line that is neither the sentinel nor a bare value.
  pub parse_data_line-data_line :
      (o : Fields F)
      → IsCodec codec (clean_usage_payload o)
      → (p : Fields F) × Cleans o p
        × (classify_data_line codec (data_line codec o)
            ≡ record { parsed = some p; is_data = true; is_done = false; non_object = false })
        × (parse_data_line codec (data_line codec o) ≡ (some p, true))
  unfolding classify_data_line parse_data_line
  parse_data_line-data_line o good = (
    clean_usage_payload o,
    clean_usage_payload-Cleans o,
    line,
    ap
        (λ (l : Line F). elim l.parsed [
          | none ↦ (none, l.is_data && l.is_done)
          | some p ↦ (some p, true)
        ])
        line,
  )
    where
      text : Bytes
      text = codec.marshal (Json.object (clean_usage_payload o))

      line : payload_line codec (data_payload codec (data_line codec o)) ≡ record {
        parsed = some (clean_usage_payload o);
        is_data = true;
        is_done = false;
        non_object = false;
      }
      line =
          ap (payload_line codec) (data_payload-data_line o good)
          ∙ ap
              (λ (b : Bool).
                if b
                then record (no_line codec) { is_data = true; is_done = true }
                else decoded codec (codec.unmarshal text))
              (not_done (clean_usage_payload o) good)
          ∙ ap (decoded codec) good.decodes
