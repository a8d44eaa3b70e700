-- ===== src/Router.antt =====
-- internal/router/server.go: the heads of a route, the cache of transports, and the maintenance that
-- the first request of a new generation runs. A client is whatever NewClientFor builds of a proxy.
pub mod Eligible
pub mod Heads
pub mod Generations
use ocfp.Prelude.{
  ℕ, ◌+◌, Bool, true, false, not, ◌&&◌, ◌||◌, Option, none, some, List, [], ◌∷◌, ◌++◌, Bytes, leb,
  eqb, if◌then◌else◌, map,
}
use ocfp.Prelude.Int.{ℤ, pos, ltb_ℤ}
use ocfp.Prelude.GoMap
use ocfp.Prelude.GoMap.{Map}
use ocfp.Config.Std.{Std}
use ocfp.Config.File.{Egress, Route, Proxy}
use ocfp.Config.Egress.{is_enabled, accepts_streaming, transport_signature, health_key}
use ocfp.Config.Validate.{contains, is_empty}
use ocfp.Config.Runtime.{Runtime, egress}
use ocfp.Health.{Policy, Registry, healthy, reclaim, active_keys}
use ocfp.Routing.{Profile, Scheduler, model_allowed, prune_routes}
use ocfp.Upstream.Limiter.{Limiter, peek}

pub record Server (C : Type 0) : Type 0 where
  pub clients : Map C
  pub pruned_generation : ℕ
  pub registry : Registry
  pub scheduler : Scheduler
  pub limiter : Limiter

module _ (std : Std) (rt : Runtime) (registry : Registry) (limiter : Limiter) (now : ℤ)
    (p : Profile) (hp : Policy) where
  -- whether the loop of routeHeads gets to its append
  is_eligible_egress : Bytes → Option Egress → Bool
  is_eligible_egress id none = false
  is_eligible_egress id (some e) =
      is_enabled e
      && (accepts_streaming e || not p.streaming)
      && (is_empty e.models || model_allowed std e.models p.model)
      && not (ltb_ℤ (pos 0) e.max_body_bytes && ltb_ℤ e.max_body_bytes p.body_bytes)
      && healthy registry now (health_key e) hp
      && peek limiter id e.max_concurrency

  unfoldable pub is_eligible : Bytes → Bool
  unfolding is_eligible_egress
  is_eligible id = is_eligible_egress id (egress rt id)

  unfoldable pub heads_of : List Bytes → List Bytes
  heads_of [] = []
  heads_of (id ∷ ids) = let rest = heads_of ids in if is_eligible id then id ∷ rest else rest

  unfoldable pub route_heads : Route → List Bytes
  unfolding heads_of
  route_heads route = heads_of route.egress

unfoldable pub egress_signatures : Runtime → List Bytes → List Bytes
egress_signatures rt [] = []
egress_signatures rt (id ∷ ids) =
    let rest = egress_signatures rt ids in
    elim (egress rt id) [ none ↦ rest | some e ↦ transport_signature e ∷ rest ]

unfoldable pub route_signatures : Runtime → List Route → List Bytes
route_signatures rt [] = []
route_signatures rt (r ∷ rs) = egress_signatures rt r.egress ++ route_signatures rt rs

abbrev pub route_ids : Runtime → List Bytes
route_ids rt = map (λ r. r.id) rt.routes

module _ {C : Type 0} where
  -- the client of an egress's transport, built once
  cached : (Option Proxy → Option C) → Server C → Egress → Option C → Server C × Option C
  cached new_client s e (some c) = (s, some c)
  cached new_client s e none = elim (new_client e.proxy) [
    | none ↦ (s, none)
    | some c ↦ (record s { clients = GoMap.put (transport_signature e) c s.clients }, some c)
  ]

  unfoldable pub client_for_egress :
      (Option Proxy → Option C) → Server C → Egress → Server C × Option C
  unfolding cached
  client_for_egress new_client s e =
      cached new_client s e (GoMap.get (transport_signature e) s.clients)

  unfoldable pub prune_clients : Server C → List Bytes → Server C
  prune_clients s keep = record s { clients = GoMap.retain (contains keep) s.clients }

  -- generationKeepSets is the three sets that this passes on
  unfoldable pub on_generation : Server C → Runtime → Server C
  unfolding prune_clients
  on_generation s rt =
      if eqb rt.generation 0 || leb rt.generation s.pruned_generation
      then s
      else record (prune_clients s (route_signatures rt rt.routes)) {
        pruned_generation = rt.generation;
        registry = (reclaim s.registry (active_keys rt)).0;
        scheduler = (prune_routes s.scheduler (route_ids rt)).0;
      }
