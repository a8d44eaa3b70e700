-- ===== src/Identity/UserAgent.antt =====
-- internal/identity/useragent.go: the gate on client versions, and the cache of the User-Agent, whose Warm is
-- two critical sections with a fetch between them. What a fetch returns is an argument, `none` for its error;
-- a time is a count of nanoseconds.
pub mod Flights
use ocfp.Prelude.{
  ℕ, ◌+◌, ◌-◌, ◌*◌, Bool, true, false, not, ◌&&◌, ◌||◌, Option, none, some, List, [], ◌∷◌, ◌++◌,
  Bytes, bytes, eqb, leb, ltb, if◌then◌else◌, ◌≡◌,
}
use ocfp.Config.Validate.{is_empty}
use ocfp.Identity.Session.{is_between}

-- a letter of either case
abbrev pub lower : ℕ → ℕ
lower c = if is_between 65 90 c then c + 32 else c

-- the pattern's text, under (?i)
unfoldable pub after_text : Bytes → Bytes → Option Bytes
after_text [] s = some s
after_text (c ∷ p) [] = none
after_text (c ∷ p) (d ∷ s) = let rest = after_text p s in if eqb c (lower d) then rest else none

abbrev pub is_digit : ℕ → Bool
is_digit c = is_between 48 57 c

-- \d+ and its number, which Atoi caps: the cap is above every version that the gate compares with
unfoldable pub digits_from : ℕ → Bytes → ℕ × Bytes
digits_from n [] = (n, [])
digits_from n (c ∷ s) =
    let rest = digits_from (n * 10 + (c - 48)) s in if is_digit c then rest else (n, c ∷ s)

abbrev pub number_at : Bytes → Option (ℕ × Bytes)
unfolding digits_from
number_at [] = none
number_at (c ∷ s) = if is_digit c then some (digits_from 0 (c ∷ s)) else none

abbrev pub minor_behind : ℕ → Option (ℕ × Bytes) → Option (ℕ × ℕ)
minor_behind major none = none
minor_behind major (some (minor, s)) = some (major, minor)

abbrev pub major_behind : Option (ℕ × Bytes) → Option (ℕ × ℕ)
major_behind none = none
major_behind (some (major, [])) = none
major_behind (some (major, c ∷ s)) = if eqb c 46 then minor_behind major (number_at s) else none

abbrev pub version_behind : Option Bytes → Option (ℕ × ℕ)
version_behind none = none
version_behind (some s) = major_behind (number_at s)

-- UARe.FindStringSubmatch: the leftmost match
unfoldable pub find_version : Bytes → Option (ℕ × ℕ)
unfolding after_text
find_version [] = none
find_version (c ∷ s) =
    let rest = find_version s in
    elim (version_behind (after_text (bytes "opencode/") (c ∷ s))) [ some v ↦ some v | none ↦ rest ]

abbrev pub is_new_enough : Option (ℕ × ℕ) → Bool
is_new_enough none = false
is_new_enough (some (major, minor)) = ltb 1 major || eqb major 1 && leb 17 minor

unfoldable pub has_valid_version : Bytes → Bool
unfolding find_version
has_valid_version ua = is_new_enough (find_version ua)

pub record Triple : Type 0 where
  pub opencode : Bytes
  pub provider_utils : Bytes
  pub bun : Bytes

unfoldable pub compose : Triple → Bytes
compose t =
    bytes "opencode/"
    ++ t.opencode
    ++ bytes " ai-sdk/provider-utils/"
    ++ t.provider_utils
    ++ bytes " runtime/bun/"
    ++ t.bun

abbrev pub zero_triple : Triple
zero_triple = record { opencode = []; provider_utils = []; bun = [] }

pub record Agent : Type 0 where
  pub inflight : Bool
  pub triple : Triple
  pub cached_at : ℕ

abbrev pub new_agent : Agent
new_agent = record { inflight = false; triple = zero_triple; cached_at = 0 }

module _ (fallback : Triple) (ttl : ℕ) where
  unfoldable pub agent_ua : Agent → Bytes
  unfolding compose
  agent_ua a = if is_empty a.triple.opencode then compose fallback else compose a.triple

  -- the first section of Warm, and whether it goes on to fetch
  unfoldable pub enter : Agent → ℕ → Bool → Agent × Bool
  enter a now force =
      if not force && not (is_empty a.triple.opencode) && ltb (now - a.cached_at) ttl
      then (a, false)
      else if a.inflight
      then (a, false)
      else (record a { inflight = true }, true)

-- the second section
unfoldable pub leave : Agent → ℕ → Option Triple → Agent
leave a now none = record a { inflight = false; cached_at = now }
leave a now (some t) = record { inflight = false; triple = t; cached_at = now }
