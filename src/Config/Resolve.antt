-- ===== src/Config/Resolve.antt =====
-- File.Resolve of internal/config/file.go: the snapshot of an accepted document.
pub mod Sorting
pub mod Matching
pub mod Index
pub mod Services
use ocfp.Prelude.{
  ◌+◌, ◌-◌, ◌%◌, ◌^◌, true, false, ◌&&◌, Option, none, some, List, [], ◌∷◌, Bytes, ltb, eqb,
  if◌then◌else◌,
}
use ocfp.Prelude.Int.{wrap64, ℤ, pos, negsuc, pos_part, neg_part, ltb_ℤ, ◌*ℤ◌}
use ocfp.Prelude.GoMap
use ocfp.Prelude.GoMap.{Map}
use ocfp.Config.Std.{Std}
use ocfp.Config.Error.{Result, ok, ◌>>◌}
use ocfp.Config.File.{File, Egress, Route, default_max_attempts, second}
use ocfp.Config.Egress.{deref_or}
use ocfp.Config.Validate.{validate, is_empty}
use ocfp.Config.Runtime.{
  Runtime, default_log_level, default_upstream_base, default_ua_sync_interval,
}

-- for i := range cp.Egress { rt.byID[cp.Egress[i].ID] = &rt.File.Egress[i] }
unfoldable pub index_egress : Map Egress → List Egress → Map Egress
index_egress m [] = m
index_egress m (e ∷ es) = index_egress (GoMap.put e.id e m) es

-- sort.SliceStable by falling priority, as an insertion sort: a route goes before those behind it
-- in the file unless theirs is above its own.
unfoldable pub insert_route : Route → List Route → List Route
insert_route r [] = r ∷ []
insert_route r (s ∷ rs) = if ltb_ℤ r.priority s.priority then s ∷ insert_route r rs else r ∷ s ∷ rs

unfoldable pub sort_routes : List Route → List Route
unfolding insert_route
sort_routes [] = []
sort_routes (r ∷ rs) = insert_route r (sort_routes rs)

-- strings.TrimRight(s, "/")
unfoldable pub trim_right_slash : Bytes → Bytes
trim_right_slash [] = []
trim_right_slash (c ∷ s) =
    let rest = trim_right_slash s in if eqb c b'/' && is_empty rest then [] else c ∷ rest

-- time.Duration(n) * time.Second
unfoldable pub seconds : ℤ → ℤ
unfolding wrap64 ◌*ℤ◌
seconds n = wrap64 (n *ℤ pos second)

ua_interval : Option ℤ → ℤ
ua_interval none = default_ua_sync_interval
ua_interval (some n) = seconds n

-- the snapshot that Resolve builds once Validate has passed; the store stamps its generation
unfoldable pub snapshot : File → Runtime
unfolding ua_interval
snapshot f = record {
  file = record f { fallback = record f.fallback { max_attempts = pos 0 } };
  by_id = index_egress [] f.egress;
  routes = sort_routes f.routes;
  fallback = record {
    enabled = some (deref_or f.fallback.enabled true);
    max_attempts =
        if ltb_ℤ (pos 0) f.fallback.max_attempts
        then f.fallback.max_attempts
        else default_max_attempts;
  };
  health = record {
    enabled = some (deref_or f.health.enabled true);
    failure_threshold = f.health.failure_threshold;
    cooldown = f.health.cooldown;
  };
  direct = false;
  generation = 0;
  log_level = if is_empty f.log_level then default_log_level else f.log_level;
  upstream_base =
      if is_empty f.upstream.base then default_upstream_base else trim_right_slash f.upstream.base;
  ua_sync_interval = ua_interval f.user_agent.sync_interval;
}

module _ (std : Std) where
  unfoldable pub resolve : File → Result Runtime
  resolve f = do validate std f; ok (snapshot f)
