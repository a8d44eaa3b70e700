-- ===== src/Tests/Servers.antt =====
-- The theorems on heads and on maintenance at the sample snapshot.
use ocfp.Prelude.{ℕ, ◌≤◌, ◌<◌, ◌≡◌, ◌⊎◌, true, [], ◌∷◌, bytes, count}
use ocfp.Prelude.Int.{pos}
use ocfp.Config.Runtime.{Runtime}
use ocfp.Health.{Policy, new_registry, pins}
use ocfp.Routing.{Profile}
use ocfp.Upstream.Limiter.{new_limiter}
use ocfp.Router.{Server, route_heads, on_generation}
use ocfp.Router.Heads.{count-route_heads}
use ocfp.Config.Egress.{transport_signature, health_key}
use ocfp.Router.Eligible.{Serves}
use ocfp.Router.Generations.{Uses, HasRoute, KeptIf, on_generation_lem}
use ocfp.Tests.Samples.{std, rt, home, turns}

abbrev profile : Profile
profile = record {
  model = bytes "m";
  streaming = true;
  body_bytes = pos 10;
  endpoint = bytes "chat";
}

abbrev policy : Policy
policy = record { enabled = true; threshold = pos 2; cooldown = pos 30 }

count-route_heads_example :
    let heads = route_heads std rt new_registry new_limiter (pos 5) profile policy turns in
    Serves std rt new_registry new_limiter (pos 5) profile policy home
      × (count home heads ≡ count home turns.egress)
    ⊎ (¬ Serves std rt new_registry new_limiter (pos 5) profile policy home)
      × (count home heads ≡ 0)
count-route_heads_example =
    count-route_heads std rt new_registry new_limiter (pos 5) profile policy turns home

-- clients are numbers here
abbrev server : Server ℕ
server = record {
  clients = (bytes "direct", 1) ∷ (bytes "http:http://gone:1", 2) ∷ [];
  pruned_generation = 1;
  registry = new_registry;
  scheduler = [];
  limiter = new_limiter;
}

abbrev second : Runtime
second = record rt { generation = 2 }

on_generation_lem_example :
    (second.generation ≤ server.pruned_generation → on_generation server second ≡ server)
    × (server.pruned_generation < second.generation
        → let s' = on_generation server second in
          KeptIf (Uses second transport_signature home) home server.clients s'.clients
          × KeptIf
              (Uses second health_key home ⊎ (0 < pins server.registry home))
              home
              server.registry.states
              s'.registry.states
          × KeptIf (HasRoute second home) home server.scheduler s'.scheduler
          × (s'.pruned_generation ≡ second.generation))
on_generation_lem_example = on_generation_lem server second home
