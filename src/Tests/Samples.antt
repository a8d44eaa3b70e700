-- ===== src/Tests/Samples.antt =====
-- A document with two egresses and two routes, its snapshot, and stand-ins for the standard library.
use ocfp.Prelude.{◌≡◌, refl, false, none, some, [], ◌∷◌, Bytes, bytes, ◌==◌, has_control_byte}
use ocfp.Prelude.Int.{pos}
use ocfp.Config.Std.{Std}
use ocfp.Config.File.{File, Egress, Route, Match, proxy_http, strategy_weighted_rr}
use ocfp.Config.Error.{ok, bounded_echo}
use ocfp.Config.Validate.{contains, find_egress, has_usable_head, validate_proxy, validate}
use ocfp.Config.Runtime.{Runtime}
use ocfp.Config.Resolve.{snapshot}

abbrev pub std : Std
std = record {
  path_match = λ pattern name. some (pattern == name);
  url_parse = λ text. some record {
    scheme = proxy_http;
    host = bytes "h:1";
    has_user = false;
    raw_query = [];
    fragment = [];
  };
  trim_space = λ text. text;
}

abbrev pub home : Bytes
home = bytes "a"

abbrev pub away : Bytes
away = bytes "b"

abbrev pub home_egress : Egress
home_egress = record {
  id = home;
  proxy = none;
  enabled = none;
  weight = some (pos 2);
  max_concurrency = pos 0;
  models = [];
  streaming = none;
  max_body_bytes = pos 0;
}

abbrev pub away_egress : Egress
away_egress = record home_egress {
  id = away;
  proxy = some record { type = proxy_http; url = bytes "http://h:1" };
  weight = none;
}

abbrev pub any : Match
any = record { streaming = none; min_body_bytes = pos 0; max_body_bytes = pos 0; models = [] }

abbrev pub turns : Route
turns = record {
  id = bytes "rr";
  priority = pos 0;
  match = any;
  egress = home ∷ away ∷ [];
  strategy = [];
}

abbrev pub shares : Route
shares = record turns { id = bytes "wrr"; priority = pos 1; strategy = strategy_weighted_rr }

abbrev pub doc : File
doc = record {
  log_level = [];
  egress = home_egress ∷ away_egress ∷ [];
  routes = turns ∷ shares ∷ [];
  fallback = record { enabled = none; max_attempts = pos 2 };
  health = record { enabled = none; failure_threshold = some (pos 2); cooldown = none };
  upstream = record { base = [] };
  user_agent = record { sync_interval = none };
}

abbrev pub rt : Runtime
rt = snapshot doc

pub doc_accepted : validate std doc ≡ ok tt
unfolding validate contains has_usable_head ◌==◌ has_control_byte bounded_echo validate_proxy
    find_egress
doc_accepted = refl
