-- ===== src/Routing/Turns.antt =====
-- Consecutive plans of one route of one snapshot over the same heads.
use ocfp.Prelude.{ℕ, zero, suc, ◌≡◌, true, List, [], ◌∷◌, Bytes, arith}
use ocfp.Config.File.{Route}
use ocfp.Config.Runtime.{Runtime}
use ocfp.Routing.{Scheduler, RouteState, scheduler_fingerprint, state_for, plan}
use ocfp.Routing.Lifecycle.{is_routable, advance, plan_writes, state_for_same}

abbrev pub first : List Bytes → Bytes
first [] = []
first (x ∷ xs) = x

-- who leads each of n consecutive plans, and the scheduler behind them
abbrev pub plan_times : ℕ → Scheduler → Runtime → Route → List Bytes → Scheduler × List Bytes
plan_times zero s rt route heads = (s, [])
plan_times (suc n) s rt route heads =
    let (s', p) = plan s rt route heads in
    let (s'', bs) = plan_times n s' rt route heads in (s'', first p.attempts ∷ bs)

-- The scheduler plans the route with the state `st`, which it holds.
abbrev pub PlansWith : Scheduler → Runtime → Route → RouteState → Type 0
PlansWith s rt route st =
    (state_for s route rt ≡ (st, true)) × (st.fingerprint ≡ scheduler_fingerprint route rt)

pub plan-PlansWith :
    (s : Scheduler) (rt : Runtime) (route : Route) (heads : List Bytes) (st : RouteState)
    → PlansWith s rt route st
    → is_routable rt route heads ≡ true
    → PlansWith (plan s rt route heads).0 rt route (advance rt route heads st)
plan-PlansWith s rt route heads st (e, f) r =
    let same : (advance rt route heads st).fingerprint ≡ scheduler_fingerprint route rt =
      ground arith in
    (
      state_for_same (plan s rt route heads).0 rt route heads (advance rt route heads st)
          (plan_writes s rt route heads st e r) same,
      same,
    )
