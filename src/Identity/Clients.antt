-- ===== src/Identity/Clients.antt =====
-- internal/identity/sessionresolver.go: the conversation's id, from what the client sends, from the text that
-- the assistant has written, or from the store. The two stores are the state.
pub mod Resolving
use ocfp.Prelude.{
  ℕ, ◌+◌, ◌*◌, Bool, true, false, not, ◌&&◌, ◌||◌, Option, none, some, List, [], ◌∷◌, ◌++◌, Bytes,
  bytes, ◌==◌, ltb, leb, eqb, if◌then◌else◌, length, take, get_or,
}
use ocfp.Prelude.Int.{pos}
use ocfp.Prelude.Decimal.{itoa}
use ocfp.Prelude.GoMap
use ocfp.Prelude.GoMap.{Map}
use ocfp.Config.Validate.{is_empty}
use ocfp.Jsonx.{Json, Floats, as_obj, as_arr, as_str, truthy, read, get}
use ocfp.Identity.Session.{is_hex, is_between, after_prefix, hex_encode}
use ocfp.Identity.Cache.{Cache, get_or_create, evict_expired}

-- Go's library, as far as it is called here: strings.TrimSpace, strings.ToLower, fmt's %v, json.Unmarshal into
-- a map (`none` is its error) and sha256.Sum256
pub record Texts (F : Type 0) : Type 0 where
  pub trim_space : Bytes → Bytes
  pub to_lower : Bytes → Bytes
  pub sprint : Json F → Bytes
  pub unmarshal : Bytes → Option (Map (Json F))
  pub sha256 : Bytes → List ℕ

abbrev pub or_else : Bytes → Bytes → Bytes
or_else [] d = d
or_else (c ∷ s) d = c ∷ s

abbrev pub text_or_empty : Option Bytes → Bytes
text_or_empty none = []
text_or_empty (some s) = s

-- the pattern's class [a-f0-9-], one byte or more, up to the end
abbrev all_bytes : (ℕ → Bool) → Bytes → Bool
all_bytes test [] = true
all_bytes test (c ∷ s) = test c && all_bytes test s

abbrev is_hex_or_dash : ℕ → Bool
is_hex_or_dash c = is_hex c || eqb c 45

abbrev session_tail : Option Bytes → Option Bytes
session_tail none = none
session_tail (some s) = if not (is_empty s) && all_bytes is_hex_or_dash s then some s else none

-- claudeCodeSessionRe.FindStringSubmatch: the leftmost _session_ whose rest is of the class
unfoldable find_session : Bytes → Option Bytes
unfolding after_prefix is_hex
find_session [] = none
find_session (c ∷ s) =
    let rest = find_session s in
    elim (session_tail (after_prefix (bytes "_session_") (c ∷ s))) [ some t ↦ some t | none ↦ rest ]

-- [a-z] under (?i), which also takes the long s and the Kelvin sign
unfoldable after_letters : Bytes → Bytes
after_letters [] = []
after_letters (c ∷ []) = if is_between 65 90 c || is_between 97 122 c then [] else c ∷ []
after_letters (c ∷ d ∷ []) =
    if is_between 65 90 c || is_between 97 122 c
    then after_letters (d ∷ [])
    else if eqb c 0xc5 && eqb d 0xbf
    then []
    else c ∷ d ∷ []
after_letters (c ∷ d ∷ e ∷ s) =
    let next = after_letters (d ∷ e ∷ s) in
    let after_two = after_letters (e ∷ s) in
    let after_three = after_letters s in
    if is_between 65 90 c || is_between 97 122 c
    then next
    else if eqb c 0xc5 && eqb d 0xbf
    then after_two
    else if eqb c 0xe2 && eqb d 0x84 && eqb e 0xaa
    then after_three
    else c ∷ d ∷ e ∷ s

abbrev is_conversation : ℕ → Bool
is_conversation c = is_hex_or_dash c || is_between 65 70 c

-- ([0-9a-f-]{36})/ behind the slash; letters of either case
abbrev conversation : Bytes → Bytes → Option Bytes
conversation whole (c ∷ s) =
    if eqb c 47
      && leb 37 (length s)
      && all_bytes is_conversation (take 36 s)
      && eqb (get_or s 36 0) 47
      && not (leb (length whole) (1 + length s))
    then some (take 36 s)
    else none
conversation whole [] = none

abbrev pub cap_len : ℕ
cap_len = 50

module _ {F : Type 0} (texts : Texts F) (floats : Floats F) where
  unfoldable pub normalize_session_id : Json F → Bytes
  normalize_session_id (Json.string s) =
      let v = texts.trim_space s in if is_empty v || ltb 256 (length v) then [] else v
  normalize_session_id _ = []

  abbrev pub header_value : Map Bytes → Bytes → Bytes
  header_value headers key =
      normalize_session_id (Json.string (text_or_empty (GoMap.get key headers)))

  abbrev session_of_object : Option (Map (Json F)) → Bytes
  session_of_object none = []
  session_of_object (some m) = normalize_session_id (read m (bytes "session_id"))

  abbrev braced : Bytes → Bool
  braced [] = false
  braced (c ∷ s) = eqb c 123

  -- metadata.user_id
  unfoldable pub extract_claude_code_session : Map (Json F) → Bytes
  unfolding find_session
  extract_claude_code_session body =
      let user_id = as_str (get (read body (bytes "metadata")) (bytes "user_id")) in
      elim (find_session user_id) [
        | some id ↦ id
        | none ↦ if braced user_id then session_of_object (texts.unmarshal user_id) else []
      ]

  -- `none` lets requestId decide: a missing sessionId, and an empty one
  abbrev session_of_request : Json F → Option Bytes
  session_of_request Json.null = none
  session_of_request (Json.string []) = none
  session_of_request (Json.string (c ∷ s)) = some (normalize_session_id (Json.string (c ∷ s)))
  session_of_request v = some (normalize_session_id (Json.string (texts.sprint v)))

  abbrev session_of_request_id : Json F → Bytes
  unfolding after_letters
  session_of_request_id (Json.string s) = elim (conversation s (after_letters s)) [
    | some id ↦ normalize_session_id (Json.string id)
    | none ↦ []
  ]
  session_of_request_id _ = []

  abbrev requested : Option (Map (Json F)) → Option Bytes
  requested none = none
  requested (some request) = session_of_request (read request (bytes "sessionId"))

  unfoldable pub extract_antigravity_session : Map (Json F) → Bytes
  unfolding after_letters
  extract_antigravity_session body = elim (requested (as_obj (read body (bytes "request")))) [
    | some id ↦ id
    | none ↦ session_of_request_id (read body (bytes "requestId"))
  ]

  -- an empty text stays empty
  abbrev pub labelled : Bytes → Bytes → Bytes
  labelled label [] = []
  labelled label (c ∷ s) = label ++ c ∷ s

  abbrev first_header : Map Bytes → List Bytes → Bytes
  first_header headers [] = []
  first_header headers (key ∷ keys) = or_else (header_value headers key) (first_header headers keys)

  abbrev pub session_header_keys : List Bytes
  session_header_keys =
      bytes "x-session-id" ∷ bytes "session-id" ∷ bytes "session_id" ∷ bytes "x-amp-thread-id" ∷ []

  unfoldable pub extract_client_session_id : Map Bytes → Map (Json F) → Bytes
  unfolding extract_claude_code_session extract_antigravity_session normalize_session_id
  extract_client_session_id headers body =
      or_else (labelled (bytes "claude:") (extract_claude_code_session body)) (
        or_else
          (labelled (bytes "claude:") (header_value headers (bytes "x-claude-code-session-id")))
          (or_else (labelled (bytes "antigravity:") (extract_antigravity_session body)) (
            or_else (first_header headers session_header_keys) (
              or_else (header_value headers (bytes "x-client-request-id")) (
                or_else (normalize_session_id (read body (bytes "prompt_cache_key"))) (
                  or_else (normalize_session_id (read body (bytes "session_id"))) (
                    or_else (normalize_session_id (read body (bytes "conversation_id"))) (
                      normalize_session_id
                        (get (read body (bytes "metadata")) (bytes "user_id"))))))))))

  -- c.text, or c.output when that is falsy; nothing of a value that is no text
  abbrev part_text : Option (Map (Json F)) → Bytes
  part_text none = []
  part_text (some c) =
      let text = read c (bytes "text") in
      let output = read c (bytes "output") in
      if truthy floats text then as_str text else if truthy floats output then as_str output else []

  abbrev parts_text : List (Json F) → Bytes
  parts_text [] = []
  parts_text (v ∷ vs) = part_text (as_obj v) ++ parts_text vs

  abbrev content_text : Json F → Bytes
  content_text (Json.string s) = s
  content_text v = elim (as_arr v) [ none ↦ [] | some parts ↦ parts_text parts ]

  -- the loop, which stops at the cap; `none` for an item that it passes over
  abbrev assistant_text : Json F → Option Bytes
  assistant_text v = elim (as_obj v) [
    | none ↦ none
    | some item ↦
        if as_str (read item (bytes "role")) == bytes "assistant"
        then some (content_text (read item (bytes "content")))
        else none
  ]

  unfoldable accumulate : Bytes → List (Json F) → Bytes
  accumulate acc [] = acc
  accumulate acc (v ∷ vs) = elim (assistant_text v) [
    | none ↦ accumulate acc vs
    | some s ↦
        let more = accumulate (acc ++ s) vs in
        if leb cap_len (length (acc ++ s)) then acc ++ s else more
  ]

  abbrev or_input : Map (Json F) → Option (List (Json F)) → Option (List (Json F))
  or_input body none = as_arr (read body (bytes "input"))
  or_input body (some vs) = some vs

  unfoldable pub accumulate_assistant_text : Map (Json F) → Bytes
  unfolding accumulate
  accumulate_assistant_text body = elim (or_input body (as_arr (read body (bytes "messages")))) [
    | none ↦ []
    | some vs ↦ accumulate [] vs
  ]

  unfoldable pub sha16 : Bytes → Bytes
  sha16 text = take 16 (hex_encode (texts.sha256 text))
