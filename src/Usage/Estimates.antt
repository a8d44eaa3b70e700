-- ===== src/Usage/Estimates.antt =====
-- internal/usage/usage.go: what a report yields per wire format, the headroom on estimates, the estimates
-- themselves and the synthesized share of hidden thinking.
pub mod Synthesis
use ocfp.Prelude.{
  ℕ, ◌+◌, ◌*◌, ◌/◌, Bool, true, false, not, ◌&&◌, ◌||◌, Option, none, some, List, [], ◌∷◌, Bytes,
  bytes, ◌==◌, eqb, leb, if◌then◌else◌, is_some,
}
use Prim.Native.Nat.{max}
use ocfp.Prelude.GoMap
use ocfp.Prelude.GoMap.{Map}
use ocfp.Jsonx.{Json, Floats, as_obj, as_str, read, get, has_key, obj}
use ocfp.Usage.{Numbers, num, js_truthy, js_or, first_non_null}
use ocfp.Usage.Units.{utf16_len}
use ocfp.Usage.Accounts.{normalize}

abbrev pub buffer_tokens : ℕ
buffer_tokens = 2000

-- the one-token floor
unfoldable pub estimate_output : ℕ → ℕ
estimate_output content_len = if eqb content_len 0 then 0 else max 1 (content_len / 4)

-- ceil(n / 4)
abbrev pub quarter_up : ℕ → ℕ
quarter_up n = (n + 3) / 4

module _ {F : Type 0} (numbers : Numbers F) where
  abbrev zero_number : Json F
  zero_number = Json.number numbers.floats.zero

  -- the candidate that goes to Normalize; an absent value is null there
  abbrev chat_candidate : Map (Json F) → Map (Json F)
  chat_candidate u =
      (bytes "prompt_tokens", read u (bytes "prompt_tokens"))
      ∷ (
        bytes "completion_tokens",
        js_or numbers (read u (bytes "completion_tokens") ∷ zero_number ∷ []),
      )
      ∷ (
        bytes "cached_tokens",
        js_or numbers (
            get (read u (bytes "prompt_tokens_details")) (bytes "cached_tokens")
            ∷ read u (bytes "prompt_cache_hit_tokens")
            ∷ []),
      )
      ∷ (
        bytes "reasoning_tokens",
        get (read u (bytes "completion_tokens_details")) (bytes "reasoning_tokens"),
      )
      ∷ (bytes "prompt_tokens_details", read u (bytes "prompt_tokens_details"))
      ∷ (bytes "completion_tokens_details", read u (bytes "completion_tokens_details"))
      ∷ []

  abbrev chat_usage : Option (Map (Json F)) → Option (Map (Json F))
  chat_usage none = none
  chat_usage (some u) =
      if has_key u (bytes "prompt_tokens")
      then normalize numbers (some (chat_candidate u))
      else none

  unfoldable pub extract_from_chat : Map (Json F) → Option (Map (Json F))
  extract_from_chat chunk = chat_usage (as_obj (read chunk (bytes "usage")))

  abbrev responses_candidate : Map (Json F) → Map (Json F)
  responses_candidate u =
      let cached = get (read u (bytes "input_tokens_details")) (bytes "cached_tokens") in
      (
        bytes "prompt_tokens",
        js_or numbers
            (read u (bytes "input_tokens") ∷ read u (bytes "prompt_tokens") ∷ zero_number ∷ []),
      )
      ∷ (
        bytes "completion_tokens",
        js_or numbers (
            read u (bytes "output_tokens") ∷ read u (bytes "completion_tokens") ∷ zero_number ∷ []),
      )
      ∷ (bytes "cached_tokens", cached)
      ∷ (
        bytes "reasoning_tokens",
        get (read u (bytes "output_tokens_details")) (bytes "reasoning_tokens"),
      )
      ∷ (
        bytes "prompt_tokens_details",
        if js_truthy numbers cached then obj ((bytes "cached_tokens", cached) ∷ []) else Json.null,
      )
      ∷ []

  abbrev responses_usage : Option (Map (Json F)) → Option (Map (Json F))
  responses_usage none = none
  responses_usage (some u) = normalize numbers (some (responses_candidate u))

  unfoldable pub extract_from_responses : Map (Json F) → Option (Map (Json F))
  extract_from_responses chunk =
      let type = as_str (read chunk (bytes "type")) in
      if type == bytes "response.completed" || type == bytes "response.done"
      then responses_usage (as_obj (get (read chunk (bytes "response")) (bytes "usage")))
      else none

  -- out[k] = num(out[k]) + bufferTokens, for a field that is there
  abbrev buffer_field : Bytes → Map (Json F) → Map (Json F)
  buffer_field k m =
      if has_key m k
      then GoMap.put k
          (Json.number
            (numbers.floats.add (num numbers (read m k)) (numbers.floats.of_nat buffer_tokens)))
          m
      else m

  abbrev total_of : Map (Json F) → Map (Json F)
  total_of m =
      if has_key m (bytes "prompt_tokens") && has_key m (bytes "completion_tokens")
      then GoMap.put (bytes "total_tokens")
          (Json.number (
            numbers.floats.add (num numbers (read m (bytes "prompt_tokens")))
              (num numbers (read m (bytes "completion_tokens")))))
          m
      else m

  abbrev buffered : Map (Json F) → Map (Json F)
  buffered u =
      let m = buffer_field (bytes "prompt_tokens") (buffer_field (bytes "input_tokens") u) in
      if has_key m (bytes "total_tokens") then buffer_field (bytes "total_tokens") m else total_of m

  unfoldable pub add_buffer : Option (Map (Json F)) → Option (Map (Json F))
  add_buffer none = none
  add_buffer (some u) = some (buffered u)

  -- `encode` is json's encoder with HTML escapes off and its newline trimmed, `none` its error; a scalar is
  -- not encoded
  abbrev encoded : (Json F → Option Bytes) → Json F → Option Bytes
  encoded encode (Json.object m) = encode (Json.object m)
  encoded encode (Json.array vs) = encode (Json.array vs)
  encoded encode _ = none

  unfoldable pub estimate_input : (Bytes → ℕ × ℕ) → (Json F → Option Bytes) → Json F → ℕ
  estimate_input decode encode body = elim (encoded encode body) [
    | none ↦ 0
    | some s ↦ quarter_up (utf16_len decode s)
  ]

  abbrev estimated : (input output : F) → Map (Json F)
  estimated input output =
      (bytes "prompt_tokens", Json.number input)
      ∷ (bytes "completion_tokens", Json.number output)
      ∷ (bytes "total_tokens", Json.number (numbers.floats.add input output))
      ∷ (bytes "estimated", Json.bool true)
      ∷ []

  unfoldable pub estimate : (Bytes → ℕ × ℕ) → (Json F → Option Bytes) → Json F → ℕ → Map (Json F)
  unfolding estimate_input estimate_output
  estimate decode encode body content_len = buffered (
      estimated (numbers.floats.of_nat (estimate_input decode encode body))
        (numbers.floats.of_nat (estimate_output content_len)))

  unfoldable pub estimate_responses :
      (Bytes → ℕ × ℕ) → (Json F → Option Bytes) → Json F → ℕ → Map (Json F)
  unfolding estimate
  estimate_responses decode encode body content_len =
      let m = estimate decode encode body content_len in
      (bytes "input_tokens", Json.number (num numbers (read m (bytes "prompt_tokens"))))
      ∷ (bytes "output_tokens", Json.number (num numbers (read m (bytes "completion_tokens"))))
      ∷ (bytes "estimated", Json.bool true)
      ∷ []

  abbrev pub completion_count : Map (Json F) → F
  completion_count u = num numbers (
      first_non_null numbers (
        read u (bytes "completion_tokens")
        ∷ read u (bytes "output_tokens")
        ∷ read u (bytes "candidatesTokenCount")
        ∷ []))

  abbrev pub reported_thinking : Map (Json F) → F
  reported_thinking u = num numbers (
      first_non_null numbers (
        read u (bytes "reasoning_tokens")
        ∷ get (read u (bytes "completion_tokens_details")) (bytes "reasoning_tokens")
        ∷ get (read u (bytes "output_tokens_details")) (bytes "reasoning_tokens")
        ∷ read u (bytes "thoughtsTokenCount")
        ∷ []))

  -- only a ratio that is not finite falls back
  abbrev pub usable_ratio : F → F → F
  usable_ratio fallback ratio =
      if numbers.floats.is_nan ratio || numbers.floats.is_inf ratio then fallback else ratio

  abbrev pub synthesized : F → F → F
  synthesized completion ratio =
      if numbers.floats.lt (numbers.floats.of_nat 10) completion
      then numbers.floats.floor (numbers.floats.mul completion ratio)
      else numbers.floats.zero

  abbrev pub details_key : Bytes → Bytes
  details_key target =
      if target == bytes "responses"
      then bytes "output_tokens_details"
      else bytes "completion_tokens_details"

  abbrev pub or_empty : Option (Map (Json F)) → Map (Json F)
  or_empty none = []
  or_empty (some m) = m

  abbrev pub with_thinking : Bytes → F → Map (Json F) → Map (Json F)
  with_thinking key share u =
      GoMap.put key
        (obj (
          GoMap.put (bytes "reasoning_tokens") (Json.number share)
            (or_empty (as_obj (read u key)))))
        u

  abbrev pub with_share : F → Map (Json F) → Bytes → F → Map (Json F)
  with_share fallback u target ratio =
      let completion = completion_count u in
      if numbers.floats.le completion numbers.floats.zero
        || numbers.floats.lt numbers.floats.zero (reported_thinking u)
      then u
      else with_thinking (details_key target) (synthesized completion (usable_ratio fallback ratio))
          u

  -- `fallback` is DefaultRatio, 0.75
  unfoldable pub synthesize_thinking : F → Option (Map (Json F)) → Bytes → F → Option (Map (Json F))
  synthesize_thinking fallback none target ratio = none
  synthesize_thinking fallback (some u) target ratio = some (with_share fallback u target ratio)
