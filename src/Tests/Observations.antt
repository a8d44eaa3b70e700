-- ===== src/Tests/Observations.antt =====
-- The health theorems at the sample egress.
use ocfp.Prelude.{◌≡◌, ◌+◌, ◌<◌, refl, true, false, not, none, some, [], ◌∷◌, ◌==◌, arith, ℕ}
use ocfp.Prelude.Int.{pos, ltb_ℤ, ◌+ℤ◌}
use ocfp.Prelude.GoMap
use ocfp.Health.{
  Policy, Registry, new_registry, pins, pin, reclaim, state_of, observe, healthy, is_before,
}
use ocfp.Health.Streak.{
  Reading, Observation, observe_failures, observe_all, observe_failures_arm, observe_all_absence,
}
use ocfp.Health.Requests.{World, Step, Reach, idle_world, held, reclaim_spares_pinned}
use ocfp.Tests.Samples.{home}

abbrev policy : Policy
policy = record { enabled = true; threshold = pos 2; cooldown = pos 30 }

abbrev at : ℕ → Reading
at n = record { now = pos n; armed_at = pos (n + 1) }

abbrev cooling : Registry
cooling = record new_registry {
  states = (home, record { failures = 0; until = some (pos 40) }) ∷ [];
}

fresh_home : state_of new_registry home ≡ record { failures = 0; until = none }
unfolding state_of GoMap.get
fresh_home = refl

cooling-home : is_before (pos 12) (state_of cooling home).until ≡ true
unfolding state_of GoMap.get ◌==◌
cooling-home = refl

abbrev one_failure : Registry
one_failure = observe_failures new_registry home policy (at 5 ∷ [])

observe_failures_arm_example :
    (healthy one_failure (pos 20) home policy ≡ healthy new_registry (pos 20) home policy)
    × (healthy (observe one_failure (pos 10) (pos 11) home false policy) (pos 20) home policy
        ≡ not (ltb_ℤ (pos 20) (pos 11 +ℤ pos 30)))
observe_failures_arm_example =
    observe_failures_arm new_registry home policy (at 5 ∷ []) (at 10) none refl fresh_home
      (refl, tt) refl refl (pos 20)

abbrev failure : Observation
failure = record { key = home; at = at 10; ok = false; policy = policy }

observe_all_absence_example :
    healthy (observe_all new_registry (failure ∷ failure ∷ [])) (pos 50) home policy ≡ true
observe_all_absence_example =
    observe_all_absence (failure ∷ failure ∷ []) new_registry home (pos 41) (pos 50) policy
      (unfold ◌+ℤ◌ in (omega arith, (omega arith, tt))) (unfold state_of GoMap.get in tt)
      (omega arith)

abbrev one_request : World
one_request = record { registry = pin new_registry (home ∷ []); requests = (home ∷ []) ∷ [] }

one_request_reached : Reach idle_world one_request
one_request_reached = Reach.next Reach.here (Step.arrive idle_world (home ∷ []))

reclaim_spares_pinned_example :
    (pins one_request.registry home ≡ held home one_request.requests)
    × (0 < held home one_request.requests
        → GoMap.get home (reclaim one_request.registry []).0.states
          ≡ GoMap.get home one_request.registry.states)
reclaim_spares_pinned_example = reclaim_spares_pinned one_request_reached [] home
