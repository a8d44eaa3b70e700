-- ===== src/Relay/Frames.antt =====
-- internal/relay/sse.go: server-sent events, printed and read. A body is a tree of fields, each key once.
-- json.Marshal, json.Unmarshal and strings.TrimSpace are parameters; `none` is an error of Unmarshal.
pub mod Cleaning
pub mod Reading
use ocfp.Prelude.{
  Bool, true, false, not, ◌&&◌, ◌||◌, Option, none, some, List, [], ◌∷◌, ◌++◌, Bytes, bytes, ◌==◌,
  if◌then◌else◌,
}
use ocfp.Prelude.GoMap
use ocfp.Prelude.GoMap.{Map}
use ocfp.Config.Validate.{is_empty}
use ocfp.Jsonx.{Json, Fields, as_obj, as_str, read, get, fields, fields_of}
use ocfp.Identity.Session.{after_prefix}

pub record Codec (F : Type 0) : Type 0 where
  pub marshal : Json F → Bytes
  pub unmarshal : Bytes → Option (Json F)
  pub trim_space : Bytes → Bytes

-- parsed, and the three flags: a data line, the sentinel, JSON that is no object
pub record Line (F : Type 0) : Type 0 where
  pub parsed : Option (Fields F)
  pub is_data : Bool
  pub is_done : Bool
  pub non_object : Bool

abbrev is_terminal_name : Bytes → Bool
is_terminal_name name =
    name == bytes "response.completed"
    || name == bytes "response.done"
    || name == bytes "response.failed"
    || name == bytes "error"

abbrev is_terminal_status : Bytes → Bool
is_terminal_status status = status == bytes "completed" || status == bytes "failed"

module _ {F : Type 0} where
  -- perf_metrics: null
  abbrev pub drop_null_perf : Fields F → Fields F
  drop_null_perf Fields.end = Fields.end
  drop_null_perf (Fields.field k Json.null rest) =
      let rest' = drop_null_perf rest in
      if k == bytes "perf_metrics" then rest' else Fields.field k Json.null rest'
  drop_null_perf (Fields.field k v rest) = Fields.field k v (drop_null_perf rest)

  -- a null usage goes, and so does its null perf_metrics; recursive into the response
  unfoldable pub clean_usage_payload : Fields F → Fields F
  clean_usage_payload Fields.end = Fields.end
  clean_usage_payload (Fields.field k Json.null rest) =
      let rest' = clean_usage_payload rest in
      if k == bytes "usage" then rest' else Fields.field k Json.null rest'
  clean_usage_payload (Fields.field k (Json.object o) rest) =
      let rest' = clean_usage_payload rest in
      let inner = clean_usage_payload o in
      if k == bytes "usage"
      then Fields.field k (Json.object (drop_null_perf o)) rest'
      else if k == bytes "response"
      then Fields.field k (Json.object inner) rest'
      else Fields.field k (Json.object o) rest'
  clean_usage_payload (Fields.field k v rest) = Fields.field k v (clean_usage_payload rest)

  unfoldable pub event_name : Bytes → Map (Json F) → Bytes
  event_name name chunk = if is_empty name then as_str (read chunk (bytes "type")) else name

  unfoldable pub terminal_responses_event : Bytes → Map (Json F) → Bool
  unfolding event_name
  terminal_responses_event name chunk =
      is_terminal_name (event_name name chunk)
      || is_terminal_status (as_str (get (read chunk (bytes "response")) (bytes "status")))

module _ {F : Type 0} (codec : Codec F) where
  unfoldable pub format_event : Bytes → Fields F → Bytes
  format_event event payload =
      bytes "event: "
      ++ event
      ++ 10
        ∷ (bytes "data: "
            ++ codec.marshal (Json.object (clean_usage_payload payload))
            ++ 10 ∷ 10 ∷ [])

  -- what stands on the data line of a frame, its newline left out
  unfoldable pub data_line : Fields F → Bytes
  data_line payload = bytes "data: " ++ codec.marshal (Json.object (clean_usage_payload payload))

  abbrev pub event_of : Json F → Json F → Option (Bytes × Fields F)
  event_of (Json.string (c ∷ s)) (Json.object inner) = some (c ∷ s, inner)
  event_of _ _ = none

  abbrev pub is_true : Json F → Bool
  is_true (Json.bool b) = b
  is_true _ = false

  unfoldable pub format_data : Fields F → Bytes
  unfolding format_event data_line
  format_data payload =
      let m = fields payload in
      if is_true (read m (bytes "done"))
      then bytes "data: [DONE]" ++ 10 ∷ 10 ∷ []
      else elim (event_of (read m (bytes "event")) (read m (bytes "data"))) [
        | some (event, inner) ↦ format_event event inner
        | none ↦ data_line payload ++ 10 ∷ 10 ∷ []
      ]

  abbrev pub trimmed : Option Bytes → Option Bytes
  trimmed none = none
  trimmed (some s) = some (codec.trim_space s)

  unfoldable pub data_payload : Bytes → Option Bytes
  unfolding after_prefix
  data_payload line = trimmed (after_prefix (bytes "data:") (codec.trim_space line))

  abbrev pub no_line : Line F
  no_line = record { parsed = none; is_data = false; is_done = false; non_object = false }

  abbrev pub decoded : Option (Json F) → Line F
  decoded none = record no_line { is_data = true }
  decoded (some (Json.object o)) = record no_line { parsed = some o; is_data = true }
  decoded (some Json.null) = record no_line { is_data = true }
  decoded (some v) = record no_line { is_data = true; non_object = true }

  abbrev pub payload_line : Option Bytes → Line F
  payload_line none = no_line
  payload_line (some payload) =
      if payload == bytes "[DONE]"
      then record no_line { is_data = true; is_done = true }
      else decoded (codec.unmarshal payload)

  unfoldable pub classify_data_line : Bytes → Line F
  unfolding data_payload
  classify_data_line line = payload_line (data_payload line)

  -- the parsed object, and whether this was a data line
  unfoldable pub parse_data_line : Bytes → Option (Fields F) × Bool
  unfolding classify_data_line
  parse_data_line line =
      let l = classify_data_line line in
      elim l.parsed [ none ↦ (none, l.is_data && l.is_done) | some o ↦ (some o, true) ]
