-- ===== src/Usage/Accounts.antt =====
-- internal/usage/usage.go: the token accounts themselves. A nil map is `none`.
pub mod Canonical
pub mod Merged
use ocfp.Prelude.{
  ℕ, ◌+◌, ◌*◌, ◌/◌, Bool, true, false, not, ◌&&◌, ◌||◌, Option, none, some, List, [], ◌∷◌, ◌++◌,
  Bytes, bytes, ◌==◌, eqb, leb, if◌then◌else◌,
}
use ocfp.Prelude.GoMap
use ocfp.Prelude.GoMap.{Map}
use ocfp.Config.Validate.{is_empty}
use ocfp.Jsonx.{Json, Floats, as_obj, as_str, read, get, has_key, obj, fields}
use ocfp.Usage.{Numbers, is_finite, num_ok, num, js_truthy, js_or, first_non_null}

abbrev pub count_keys : List Bytes
count_keys =
    bytes "prompt_tokens"
    ∷ bytes "completion_tokens"
    ∷ bytes "total_tokens"
    ∷ bytes "cache_read_input_tokens"
    ∷ bytes "cache_creation_input_tokens"
    ∷ bytes "cached_tokens"
    ∷ bytes "reasoning_tokens"
    ∷ []

abbrev pub detail_keys : List Bytes
detail_keys = bytes "prompt_tokens_details" ∷ bytes "completion_tokens_details" ∷ []

abbrev pub known_keys : List Bytes
known_keys =
    bytes "prompt_tokens"
    ∷ bytes "completion_tokens"
    ∷ bytes "total_tokens"
    ∷ bytes "input_tokens"
    ∷ bytes "output_tokens"
    ∷ bytes "promptTokenCount"
    ∷ bytes "candidatesTokenCount"
    ∷ []

module _ {F : Type 0} (numbers : Numbers F) where
  abbrev put_count : Bytes → Option F → Map (Json F) → Map (Json F)
  put_count k none out = out
  put_count k (some f) out = GoMap.put k (Json.number f) out

  -- an absent field and a null are left out
  abbrev put_counts : Map (Json F) → List Bytes → Map (Json F) → Map (Json F)
  put_counts u [] out = out
  put_counts u (k ∷ ks) out = put_counts u ks (put_count k (num_ok numbers (read u k)) out)

  abbrev put_detail : Bytes → Json F → Map (Json F) → Map (Json F)
  put_detail k (Json.object m) out = GoMap.put k (Json.object m) out
  put_detail k (Json.array vs) out = GoMap.put k (Json.array vs) out
  put_detail k _ out = out

  abbrev put_details : Map (Json F) → List Bytes → Map (Json F) → Map (Json F)
  put_details u [] out = out
  put_details u (k ∷ ks) out = put_details u ks (put_detail k (read u k) out)

  abbrev non_empty : Map (Json F) → Option (Map (Json F))
  non_empty [] = none
  non_empty (kv ∷ m) = some (kv ∷ m)

  unfoldable pub normalize : Option (Map (Json F)) → Option (Map (Json F))
  normalize none = none
  normalize (some u) = non_empty (put_details u detail_keys (put_counts u count_keys []))

  abbrev pub completion_of : Map (Json F) → F
  completion_of u = num numbers (
      first_non_null numbers
        (read u (bytes "completion_tokens") ∷ read u (bytes "output_tokens") ∷ []))

  abbrev pub creation_of : Map (Json F) → F
  creation_of u = num numbers (
      first_non_null numbers (
        read u (bytes "cache_creation_input_tokens")
        ∷ get (read u (bytes "prompt_tokens_details")) (bytes "cache_creation_tokens")
        ∷ []))

  abbrev pub input_of : Map (Json F) → F
  input_of u =
      num numbers (
        first_non_null numbers
          (read u (bytes "prompt_tokens") ∷ read u (bytes "input_tokens") ∷ []))

  abbrev pub cached_of : Map (Json F) → F
  cached_of u = num numbers (
      first_non_null numbers (
        read u (bytes "cached_tokens")
        ∷ get (read u (bytes "prompt_tokens_details")) (bytes "cached_tokens")
        ∷ []))

  -- a report in Claude's way, whose prompt leaves the cache out
  abbrev pub is_split : Map (Json F) → Bool
  is_split u =
      not (has_key u (bytes "cached_tokens"))
      && (has_key u (bytes "cache_read_input_tokens")
          || has_key u (bytes "cache_creation_input_tokens"))

  -- prompt, cached
  abbrev pub folded : Bool → Map (Json F) → F × F
  folded true u =
      let cached = num numbers (read u (bytes "cache_read_input_tokens")) in
      (numbers.floats.add (numbers.floats.add (input_of u) cached) (creation_of u), cached)
  folded false u = (input_of u, cached_of u)

  abbrev pub put_reasoning : Bool → F → Map (Json F) → Map (Json F)
  put_reasoning true reasoning m = GoMap.put (bytes "reasoning_tokens") (Json.number reasoning) m
  put_reasoning false reasoning m = m

  -- the five counts, and the reasoning behind them
  abbrev pub account : (prompt completion cached creation reasoning : F) → Map (Json F)
  account prompt completion cached creation reasoning =
      put_reasoning (numbers.floats.lt numbers.floats.zero reasoning) reasoning (
        (bytes "prompt_tokens", Json.number prompt)
        ∷ (bytes "completion_tokens", Json.number completion)
        ∷ (bytes "total_tokens", Json.number (numbers.floats.add prompt completion))
        ∷ (bytes "cached_tokens", Json.number cached)
        ∷ (bytes "cache_creation_input_tokens", Json.number creation)
        ∷ [])

  abbrev pub canonical_of : Map (Json F) → Map (Json F)
  canonical_of u =
      let (prompt, cached) = folded (is_split u) u in
      account prompt (completion_of u) cached (creation_of u)
        (num numbers (read u (bytes "reasoning_tokens")))

  unfoldable pub canonical : Option (Map (Json F)) → Option (Map (Json F))
  canonical none = none
  canonical (some u) = some (canonical_of u)

  abbrev pub number_or_zero : Json F → F
  number_or_zero (Json.number f) = f
  number_or_zero _ = numbers.floats.zero

  -- one field of the later report
  abbrev pub merge_field : Map (Json F) → Bytes → Json F → Map (Json F)
  merge_field m k (Json.number n) =
      if is_finite numbers n
      then GoMap.put k (Json.number (numbers.floats.max (number_or_zero (read m k)) n)) m
      else m
  merge_field m k (Json.object o) = GoMap.put k (Json.object o) m
  merge_field m k (Json.array a) = GoMap.put k (Json.array a) m
  merge_field m k _ = m

  unfoldable pub merge_fields : Map (Json F) → Map (Json F) → Map (Json F)
  merge_fields m [] = m
  merge_fields m ((k, v) ∷ rest) = merge_fields (merge_field m k v) rest

  unfoldable pub merge : Option (Map (Json F)) → Option (Map (Json F)) → Option (Map (Json F))
  unfolding merge_fields
  merge none next = next
  merge (some prev) none = some prev
  merge (some prev) (some next) = some (merge_fields prev next)

  abbrev is_positive : Json F → Bool
  is_positive (Json.number n) = numbers.floats.lt numbers.floats.zero n
  is_positive _ = false

  abbrev any_positive : Map (Json F) → List Bytes → Bool
  any_positive u [] = false
  any_positive u (k ∷ ks) = is_positive (read u k) || any_positive u ks

  unfoldable pub has_valid : Option (Map (Json F)) → Bool
  has_valid none = false
  has_valid (some u) = any_positive u known_keys
