-- ===== src/Config/Runtime.antt =====
-- internal/config/file.go: the Runtime snapshot, its accessors, MatchRoute and DefaultRuntime. Deep
-- copies are not seen here, since a value that is passed on cannot be written to.
use ocfp.Prelude.{
  ℕ, Bool, true, false, ◌&&◌, ◌||◌, not, Option, none, some, List, [], ◌∷◌, Bytes, bytes, ◌==◌,
  if◌then◌else◌,
}
use ocfp.Prelude.Int.{ℤ, pos, ltb_ℤ}
use ocfp.Prelude.GoMap
use ocfp.Prelude.GoMap.{Map}
use ocfp.Config.Std.{Std}
use ocfp.Config.File.{
  File, Egress, Route, Match, FallbackPolicy, HealthPolicy, default_health_threshold,
  default_health_cooldown, default_weight, strategy_round_robin,
}
use ocfp.Config.Egress.{deref_or}

pub record Runtime : Type 0 where
  pub file : File
  pub by_id : Map Egress
  pub routes : List Route
  pub fallback : FallbackPolicy
  pub health : HealthPolicy
  pub direct : Bool
  pub generation : ℕ
  pub log_level : Bytes
  pub upstream_base : Bytes
  pub ua_sync_interval : ℤ

-- rt.Egress(id)
abbrev pub egress : Runtime → Bytes → Option Egress
egress rt id = GoMap.get id rt.by_id

unfoldable pub health_threshold : Runtime → ℤ
health_threshold rt = deref_or rt.health.failure_threshold default_health_threshold

unfoldable pub health_cooldown : Runtime → ℤ
health_cooldown rt = deref_or rt.health.cooldown default_health_cooldown

module _ (std : Std) where
  unfoldable pub glob_match : Bytes → Bytes → Bool
  glob_match pattern model = pattern == model || deref_or (std.path_match pattern model) false

  -- every pattern of the list holds: the loop returns false at the first that does not
  unfoldable pub all_match : List Bytes → Bytes → Bool
  all_match [] model = true
  all_match (pat ∷ pats) model = glob_match pat model && all_match pats model

  streaming_holds : Option Bool → Bool → Bool
  streaming_holds none streaming = true
  streaming_holds (some true) streaming = streaming
  streaming_holds (some false) streaming = not streaming

  unfoldable pub match_holds : Match → Bool → ℤ → Bytes → Bool
  unfolding streaming_holds
  match_holds m streaming body_bytes model =
      streaming_holds m.streaming streaming
      && not (ltb_ℤ (pos 0) m.min_body_bytes && ltb_ℤ body_bytes m.min_body_bytes)
      && not (ltb_ℤ (pos 0) m.max_body_bytes && ltb_ℤ m.max_body_bytes body_bytes)
      && all_match m.models model

  unfoldable pub first_match : List Route → Bool → ℤ → Bytes → Option Route
  first_match [] streaming body_bytes model = none
  first_match (r ∷ rs) streaming body_bytes model =
      if match_holds r.match streaming body_bytes model
      then some r
      else first_match rs streaming body_bytes model

  unfoldable pub match_route : Runtime → Bool → ℤ → Bytes → Option Route
  match_route rt = first_match rt.routes

abbrev pub direct_id : Bytes
direct_id = bytes "direct"

abbrev pub direct_egress : Egress
direct_egress = record {
  id = direct_id;
  proxy = none;
  enabled = none;
  weight = some default_weight;
  max_concurrency = pos 0;
  models = [];
  streaming = none;
  max_body_bytes = pos 0;
}

abbrev pub match_any : Match
match_any = record { streaming = none; min_body_bytes = pos 0; max_body_bytes = pos 0; models = [] }

abbrev pub default_route : Route
default_route = record {
  id = bytes "default";
  priority = pos 0;
  match = match_any;
  egress = direct_id ∷ [];
  strategy = strategy_round_robin;
}

abbrev pub default_log_level : Bytes
default_log_level = bytes "info"

abbrev pub default_upstream_base : Bytes
default_upstream_base = bytes "https://opencode.ai"

-- one hour
abbrev pub default_ua_sync_interval : ℤ
default_ua_sync_interval = pos 3_600_000_000_000

abbrev pub default_fallback : FallbackPolicy
default_fallback = record { enabled = some true; max_attempts = pos 1 }

abbrev pub default_health : HealthPolicy
default_health = record { enabled = some false; failure_threshold = none; cooldown = none }

unfoldable pub default_runtime : Runtime
default_runtime = record {
  file = record {
    log_level = default_log_level;
    egress = direct_egress ∷ [];
    routes = default_route ∷ [];
    fallback = default_fallback;
    health = default_health;
    upstream = record { base = [] };
    user_agent = record { sync_interval = none };
  };
  by_id = (direct_id, direct_egress) ∷ [];
  routes = default_route ∷ [];
  fallback = default_fallback;
  health = default_health;
  direct = true;
  generation = 0;
  log_level = default_log_level;
  upstream_base = default_upstream_base;
  ua_sync_interval = default_ua_sync_interval;
}
