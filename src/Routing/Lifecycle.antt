-- ===== src/Routing/Lifecycle.antt =====
-- Which state a plan reads and writes: continuity under the same fingerprint, reset under another,
-- and no write by a superseded generation.
use ocfp.Prelude.{
  ◌+◌, ◌≤◌, ◌<◌, ◌≡◌, ◌≢◌, ap, Bool, true, false, not, ◌&&◌, ◌||◌, none, some, List, [], Bytes,
  ◌==◌, eq_iff, eq_refl, ◌⊎◌, arith, if◌then◌else◌, length,
}
use ocfp.Prelude.GoMap
use ocfp.Prelude.GoMap.{get-put, get-retain, dropped-retain}
use ocfp.Config.File.{Route}
use ocfp.Config.Validate.{contains, is_empty}
use ocfp.Config.Runtime.{Runtime}
use ocfp.Routing.{
  Scheduler, RouteState, scheduler_fingerprint, state_for, store, is_weighted, positive_members,
  fresh_state, select, plan, prune_routes,
}

-- The request can be routed: it has heads, and under weighted round robin one of positive weight.
abbrev pub is_routable : Runtime → Route → List Bytes → Bool
is_routable rt route heads =
    not (is_empty heads)
    && (not (is_weighted route.strategy) || not (is_empty (positive_members rt heads)))

-- the state that a plan advances to
abbrev pub advance : Runtime → Route → List Bytes → RouteState → RouteState
advance rt route heads st =
    if is_weighted route.strategy
    then record st { cw = (select st.cw (positive_members rt heads)).0 }
    else record st { cursor = st.cursor + 1 }

-- What a plan orders depends on the scheduler by the cursor and the current weights that it plans
-- with alone.
plan_same :
    (s t : Scheduler) (rt : Runtime) (route : Route) (heads : List Bytes)
    → (state_for s route rt).0.cursor ≡ (state_for t route rt).0.cursor
    → (state_for s route rt).0.cw ≡ (state_for t route rt).0.cw
    → (plan s rt route heads).1 ≡ (plan t rt route heads).1
unfolding plan
plan_same s t rt route heads c w = ground arith

module _ (s : Scheduler) (rt : Runtime) (route : Route) (heads : List Bytes) where
  abbrev pub fp : Bytes
  fp = scheduler_fingerprint route rt

  plan_stores : (plan s rt route heads).0 ≡ (
      if is_routable rt route heads
      then store s route (state_for s route rt).1 (advance rt route heads (state_for s route rt).0)
      else s)
  unfolding plan
  plan_stores = ground arith

  pub state_for_same :
      (st : RouteState)
      → GoMap.get route.id s ≡ some st
      → st.fingerprint ≡ fp
      → state_for s route rt ≡ (st, true)
  unfolding state_for
  state_for_same st h e = ground (arith, eq_iff st.fingerprint fp)

  state_for_older :
      (st : RouteState)
      → GoMap.get route.id s ≡ some st
      → st.fingerprint ≢ fp
      → rt.generation < st.generation
      → state_for s route rt ≡ (fresh_state fp, false)
  unfolding state_for
  state_for_older st h n g = ground (arith, eq_iff st.fingerprint fp)

  state_for_changed :
      (st : RouteState)
      → GoMap.get route.id s ≡ some st
      → st.fingerprint ≢ fp
      → st.generation ≤ rt.generation
      → state_for s route rt ≡ (record (fresh_state fp) { generation = rt.generation }, true)
  unfolding state_for
  state_for_changed st h n g = ground (arith, eq_iff st.fingerprint fp)

  pub plan_writes :
      (st : RouteState)
      → state_for s route rt ≡ (st, true)
      → is_routable rt route heads ≡ true
      → GoMap.get route.id (plan s rt route heads).0 ≡ some (advance rt route heads st)
  unfolding store
  plan_writes st e r = ground (
    arith,
    plan_stores,
    get-put route.id route.id (advance rt route heads st) s,
    eq_refl route.id,
  )

  -- A plan leaves the state of every other route alone.
  pub plan_frame :
      (j : Bytes) → route.id == j ≡ false → GoMap.get j (plan s rt route heads).0 ≡ GoMap.get j s
  unfolding store
  plan_frame j h =
      ground
        (arith, plan_stores, get-put route.id j (advance rt route heads (state_for s route rt).0) s)

  -- Where the stored state has the fingerprint of the request's route, whatever the generations, a
  -- plan that can be routed advances that state and keeps the generation that it is tagged with.
  pub plan_continues :
      (st : RouteState)
      → GoMap.get route.id s ≡ some st
      → st.fingerprint ≡ fp
      → is_routable rt route heads ≡ true
      → GoMap.get route.id (plan s rt route heads).0 ≡ some (advance rt route heads st)
  unfolding store
  plan_continues st h e r = plan_writes st (state_for_same st h e) r

  -- Where the stored state has another fingerprint than the request's route and is of no newer
  -- generation, a plan that can be routed starts from fresh state, and stores it advanced, tagged with
  -- the request's fingerprint and generation.
  pub plan_resets :
      (st : RouteState)
      → GoMap.get route.id s ≡ some st
      → st.fingerprint ≢ fp
      → st.generation ≤ rt.generation
      → is_routable rt route heads ≡ true
      → GoMap.get route.id (plan s rt route heads).0
        ≡ some (advance rt route heads (record (fresh_state fp) { generation = rt.generation }))
  unfolding store
  plan_resets st h n g r = plan_writes _ (state_for_changed st h n g) r

  -- Where the stored state has another fingerprint than the request's route and is of a newer
  -- generation, the scheduler stays exactly as it was, and the plan is the one that an empty scheduler
  -- gives.
  pub plan_stale :
      (st : RouteState)
      → GoMap.get route.id s ≡ some st
      → st.fingerprint ≢ fp
      → rt.generation < st.generation
      → ((plan s rt route heads).0 ≡ s) × ((plan s rt route heads).1 ≡ (plan [] rt route heads).1)
  unfolding store
  plan_stale st h n g = (
    ground (arith, plan_stores, state_for_older st h n g),
    unfold state_for fresh_state GoMap.get in
        plan_same s [] rt route heads
          (ap (λ (p : RouteState × Bool). p.0.cursor) (state_for_older st h n g))
          (ap (λ (p : RouteState × Bool). p.0.cw) (state_for_older st h n g)),
  )

-- An unroutable request, one with no head or under weighted round robin with none of positive
-- weight, gets an empty plan and leaves the scheduler as it was.
pub plan_unroutable :
    (s : Scheduler) (rt : Runtime) (route : Route) (heads : List Bytes)
    → (is_empty heads ≡ true)
      ⊎ (is_weighted route.strategy ≡ true) × (is_empty (positive_members rt heads) ≡ true)
    → ((plan s rt route heads).0 ≡ s) × ((plan s rt route heads).1.attempts ≡ [])
unfolding plan
plan_unroutable s rt route heads h = ground arith

-- Pruning keeps exactly the states of the routes in the keep set, and returns how many it dropped.
pub prune_routes_lem :
    (s : Scheduler) (keep : List Bytes) (j : Bytes)
    → (GoMap.get j (prune_routes s keep).0 ≡ (if contains keep j then GoMap.get j s else none))
      × ((prune_routes s keep).1 + length (prune_routes s keep).0 ≡ length s)
unfolding prune_routes
prune_routes_lem s keep j = (get-retain (contains keep) j s, dropped-retain (contains keep) s)
