-- ===== src/Identity/Clients/Resolving.antt =====
-- ResolveSessionID of internal/identity/sessionresolver.go over its two stores, DetectClientTool of
-- internal/identity/clienttool.go, and ResolveSession of internal/upstream/executor.go, which sends the result.
pub mod Shape
pub mod Stable
use ocfp.Prelude.{
  ℕ, ◌+◌, Bool, true, false, not, ◌&&◌, ◌||◌, Option, none, some, List, [], ◌∷◌, ◌++◌, Bytes, bytes,
  ◌==◌, leb, ltb, if◌then◌else◌, length, take,
}
use ocfp.Prelude.Int.{pos}
use ocfp.Prelude.Decimal.{itoa}
use ocfp.Prelude.GoMap
use ocfp.Prelude.GoMap.{Map}
use ocfp.Config.Validate.{is_empty}
use ocfp.Jsonx.{Json, Floats, as_str, read}
use ocfp.Identity.Session.{
  hex_encode, ses, matches_id, Clock, generate_session_id, translate_session_id, after_prefix,
}
use ocfp.Identity.Cache.{Cache, get_or_create, evict_expired}
use ocfp.Identity.Clients.{
  Texts, text_or_empty, cap_len, extract_client_session_id, accumulate_assistant_text, sha16,
}

-- connectionStore and assistantStore
pub record Stores : Type 0 where
  pub connections : Cache
  pub assistants : Cache

-- what one request draws: the clock, and the bytes of crypto/rand for either generator
pub record Draw : Type 0 where
  pub now : ℕ
  pub millis : ℕ
  pub buf : List ℕ
  pub random : Option (List ℕ)

abbrev pub itoa64 : ℕ → Bytes
itoa64 n = itoa (pos n)

abbrev pub generate_binary_style_id : List ℕ → ℕ → Bytes
generate_binary_style_id buf millis = hex_encode buf ++ itoa64 millis

-- the janitor's body: both stores
unfoldable pub evict_all : ℕ → Stores → Stores
evict_all cutoff stores = record {
  connections = evict_expired cutoff stores.connections;
  assistants = evict_expired cutoff stores.assistants;
}

abbrev pub is_infix_at : Bytes → Bytes → Bool
is_infix_at p s = elim (after_prefix p s) [ none ↦ false | some _ ↦ true ]

-- strings.Contains
unfoldable pub contains_text : Bytes → Bytes → Bool
unfolding after_prefix
contains_text p [] = is_empty p
contains_text p (c ∷ s) = is_infix_at p (c ∷ s) || contains_text p s

module _ {F : Type 0} (texts : Texts F) (floats : Floats F) where
  abbrev pub scope_key : Bytes → Bytes → Bytes
  scope_key connection text =
      sha16 texts floats (bytes "opencode:" ++ connection ++ bytes ":" ++ take cap_len text)

  abbrev on_assistants : Stores → Cache × Bytes → Stores × Bytes
  on_assistants stores (c, id) = (record stores { assistants = c }, id)

  abbrev on_connections : Stores → Cache × Bytes → Stores × Bytes
  on_connections stores (c, id) = (record stores { connections = c }, id)

  -- by whether the text is long enough to name the conversation
  abbrev pub stored_by : Bool → Stores → Draw → Bytes → Bytes → Stores × Bytes
  stored_by true stores draw text connection = on_assistants stores (
      get_or_create stores.assistants draw.now (scope_key connection text)
        (generate_binary_style_id draw.buf draw.millis))
  stored_by false stores draw text connection = on_connections stores (
      get_or_create stores.connections draw.now (bytes "opencode:" ++ connection)
        (generate_binary_style_id draw.buf draw.millis))

  abbrev pub stored_id : Stores → Draw → Bytes → Bytes → Stores × Bytes
  stored_id stores draw text connection =
      stored_by (leb cap_len (length text)) stores draw text connection

  unfoldable pub resolve_session_id_scoped :
      Stores → Draw → Map (Json F) → Map Bytes → Bytes → Stores × Bytes
  unfolding get_or_create sha16
  resolve_session_id_scoped stores draw body headers connection =
      let client = extract_client_session_id texts floats headers body in
      let stored = stored_id stores draw (accumulate_assistant_text texts floats body) connection in
      if is_empty client then stored else (stores, client)

  unfoldable pub detect_client_tool : Map Bytes → Map (Json F) → Bytes
  unfolding contains_text
  detect_client_tool headers body =
      let ua = texts.to_lower (text_or_empty (GoMap.get (bytes "user-agent") headers)) in
      let x_app = texts.to_lower (text_or_empty (GoMap.get (bytes "x-app") headers)) in
      if as_str (read body (bytes "userAgent")) == bytes "antigravity"
      then bytes "antigravity"
      else if contains_text (bytes "githubcopilotchat") ua
      then bytes "github-copilot"
      else if contains_text (bytes "claude-cli") ua
          || contains_text (bytes "claude-code") ua
          || x_app == bytes "cli"
      then bytes "claude"
      else if contains_text (bytes "gemini-cli") ua
      then bytes "gemini-cli"
      else if contains_text (bytes "codex-tui") ua
          || contains_text (bytes "codex-cli") ua
          || contains_text (bytes "codex_cli_rs") ua
          || contains_text (bytes "codex desktop") ua
      then bytes "codex"
      else if contains_text (bytes "deepseek-tui") ua
      then bytes "deepseek-tui"
      else []

  unfoldable pub normalize_session : Bytes → Bytes
  normalize_session value =
      let v = texts.trim_space value in if is_empty v || ltb 256 (length v) then [] else v

  -- the inbound x-opencode-session header; one that is missing reads as the empty text
  abbrev pub incoming : Map Bytes → Bytes
  unfolding normalize_session
  incoming headers = elim (GoMap.get (bytes "x-opencode-session") headers) [
    | none ↦ []
    | some v ↦ normalize_session v
  ]

  unfoldable pub native_session : Map Bytes → Bytes
  unfolding incoming
  native_session headers =
      let v = incoming headers in if not (is_empty v) && matches_id ses v then v else []

  abbrev pub sent_session : Clock → Draw → Map Bytes → Map (Json F) → Bytes → Clock × Bytes
  unfolding translate_session_id
  sent_session clock draw headers body [] = generate_session_id clock draw.millis draw.random
  sent_session clock draw headers body (c ∷ resolved) = (
    clock,
    translate_session_id texts.trim_space texts.sha256 (c ∷ resolved)
        (detect_client_tool headers body),
  )

  -- the incoming id, or the one that the conversation has
  abbrev pub known_session : Stores → Draw → Map (Json F) → Map Bytes → Bytes → Stores × Bytes
  known_session stores draw body headers [] = resolve_session_id_scoped stores draw body headers []
  known_session stores draw body headers (c ∷ s) = (stores, c ∷ s)

  abbrev answered : Stores → Clock × Bytes → Stores × Clock × Bytes
  answered stores (clock, id) = (stores, clock, id)

  unfoldable pub resolve_session :
      Stores → Clock → Draw → Map (Json F) → Map Bytes → Stores × Clock × Bytes
  unfolding native_session resolve_session_id_scoped detect_client_tool incoming sent_session
  resolve_session stores clock draw body headers =
      let native = native_session headers in
      let known = known_session stores draw body headers (incoming headers) in
      if is_empty native
      then answered known.0 (sent_session clock draw headers body known.1)
      else (stores, clock, native)
