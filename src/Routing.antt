-- ===== src/Routing.antt =====
-- internal/routing/routing.go: where a request starts. The scheduler's state is passed and returned;
-- each function that changes it is one method under the scheduler's mutex.
pub mod Fingerprint
pub mod Heads
pub mod Turns
pub mod RoundRobin
pub mod Exact
pub mod Best
pub mod Weighted
pub mod Balance
pub mod Share
pub mod WeightedTurns
pub mod Lifecycle
use ocfp.Prelude.{
  ℕ, suc, ◌+◌, ◌%◌, Bool, true, false, not, ◌||◌, ◌&&◌, Option, none, some, List, [], ◌∷◌, ◌++◌,
  Bytes, bytes, ◌==◌, ltb, if◌then◌else◌, length, take, drop, map,
}
use ocfp.Prelude.Int.{ℤ, pos, ltb_ℤ, ◌+ℤ◌, ◌-ℤ◌, wrap64}
use ocfp.Prelude.Decimal.{itoa}
use ocfp.Prelude.GoMap
use ocfp.Prelude.GoMap.{Map}
use ocfp.Config.Std.{Std}
use ocfp.Config.File.{Egress, Route, default_weight, strategy_round_robin, strategy_weighted_rr}
use ocfp.Config.Egress.{effective_weight}
use ocfp.Config.Validate.{contains, is_empty}
use ocfp.Config.Runtime.{Runtime, egress, glob_match}

pub record Profile : Type 0 where
  pub model : Bytes
  pub streaming : Bool
  pub body_bytes : ℤ
  pub endpoint : Bytes

module _ (std : Std) where
  unfoldable pub model_allowed : List Bytes → Bytes → Bool
  unfolding glob_match
  model_allowed [] model = false
  model_allowed (pat ∷ pats) model = glob_match std pat model || model_allowed pats model

pub record RoutePlan : Type 0 where
  pub route_id : Bytes
  pub strategy : Bytes
  pub attempts : List Bytes
  pub egresses : List (Option Egress)

pub record RouteState : Type 0 where
  pub fingerprint : Bytes
  pub generation : ℕ
  pub cursor : ℕ
  pub cw : Map ℤ

abbrev pub Scheduler : Type 0
Scheduler = Map RouteState

pub record Candidate : Type 0 where
  pub id : Bytes
  pub w : ℤ

weight_or_default : Option Egress → ℤ
weight_or_default none = default_weight
weight_or_default (some e) = effective_weight e

unfoldable pub weight_of : Runtime → Bytes → ℤ
unfolding weight_or_default
weight_of rt id = weight_or_default (egress rt id)

-- xs without every text equal to `drop`
unfoldable pub without : List Bytes → Bytes → List Bytes
without [] dropped = []
without (x ∷ xs) dropped = let rest = without xs dropped in if x == dropped then rest else x ∷ rest

unfoldable pub resolve_egresses : Runtime → List Bytes → List (Option Egress)
resolve_egresses rt ids = map (egress rt) ids

-- the selection pool: the members of positive weight
unfoldable pub positive_members : Runtime → List Bytes → List Candidate
positive_members rt [] = []
positive_members rt (id ∷ ids) =
    let rest = positive_members rt ids in
    if ltb_ℤ (pos 0) (weight_of rt id) then record { id = id; w = weight_of rt id } ∷ rest else rest

abbrev pub is_weighted : Bytes → Bool
is_weighted strategy = strategy == strategy_weighted_rr

-- an unset strategy is round_robin
abbrev pub normalized : Bytes → Bytes
normalized strategy = if is_empty strategy then strategy_round_robin else strategy

-- the members of a fingerprint, each behind a NUL, under weights with the weight behind another
unfoldable pub members : Runtime → Bool → List Bytes → Bytes
members rt weighted [] = []
members rt weighted (id ∷ ids) =
    let rest = members rt weighted ids in
    0 ∷ id ++ (if weighted then 0 ∷ itoa (weight_of rt id) ++ rest else rest)

unfoldable pub scheduler_fingerprint : Route → Runtime → Bytes
scheduler_fingerprint route rt =
    let strategy = normalized route.strategy in
    strategy
    ++ 0
      ∷ (route.id
          ++ 0
            ∷ (itoa (pos (length route.egress)) ++ members rt (is_weighted strategy) route.egress))

unfoldable pub fresh_state : Bytes → RouteState
fresh_state fp = record { fingerprint = fp; generation = 0; cursor = 0; cw = [] }

-- The state to plan with, and whether it is the stored one: a throwaway is planned with and dropped.
choose_state : Option RouteState → Bytes → ℕ → RouteState × Bool
choose_state none fp generation = (record (fresh_state fp) { generation = generation }, true)
choose_state (some st) fp generation =
    if st.fingerprint == fp
    then (st, true)
    else if ltb generation st.generation
    then (fresh_state fp, false)
    else (record (fresh_state fp) { generation = generation }, true)

unfoldable pub state_for : Scheduler → Route → Runtime → RouteState × Bool
unfolding choose_state fresh_state
state_for s route rt =
    choose_state (GoMap.get route.id s) (scheduler_fingerprint route rt) rt.generation

abbrev pub or_zero : Option ℤ → ℤ
or_zero none = pos 0
or_zero (some n) = n

-- cw[id]
unfoldable pub current : Map ℤ → Bytes → ℤ
current cw id = or_zero (GoMap.get id cw)

-- the best candidate so far with its running total; the first seeds it, a later one must exceed it
better : Option (Bytes × ℤ) → Bytes → ℤ → Bytes × ℤ
better none id v = (id, v)
better (some (b, bv)) id v = if ltb_ℤ bv v then (id, v) else (b, bv)

-- the loop over the pool: the current weights, the total and the best; the sums are of int, and wrap
unfoldable pub poll :
    Map ℤ → ℤ → Option (Bytes × ℤ) → List Candidate → Map ℤ × ℤ × Option (Bytes × ℤ)
unfolding better
poll cw total best [] = (cw, total, best)
poll cw total best (c ∷ pool) =
    let cw' = GoMap.put c.id (wrap64 (current cw c.id +ℤ c.w)) cw in
    poll cw' (wrap64 (total +ℤ c.w)) (some (better best c.id (current cw' c.id))) pool

charge : Map ℤ × ℤ × Option (Bytes × ℤ) → Map ℤ × Bytes
charge (cw, total, none) = (cw, [])
charge (cw, total, some (b, bv)) = (GoMap.put b (wrap64 (current cw b -ℤ total)) cw, b)

-- one smooth selection: the new current weights and the head
unfoldable pub select : Map ℤ → List Candidate → Map ℤ × Bytes
unfolding poll charge
select cw pool = charge (poll cw (pos 0) none pool)

-- heads[i:] ++ heads[:i]
abbrev pub rotate : ℕ → List Bytes → List Bytes
rotate i heads = drop i heads ++ take i heads

empty_plan : Route → RoutePlan
empty_plan route = record {
  route_id = route.id;
  strategy = route.strategy;
  attempts = [];
  egresses = [];
}

filled_plan : Runtime → Route → List Bytes → RoutePlan
filled_plan rt route attempts = record {
  route_id = route.id;
  strategy = route.strategy;
  attempts = attempts;
  egresses = resolve_egresses rt attempts;
}

-- what a plan writes through the state's pointer reaches the scheduler if the state is stored
unfoldable pub store : Scheduler → Route → Bool → RouteState → Scheduler
store s route true st = GoMap.put route.id st s
store s route false st = s

plan_weighted : Scheduler → Runtime → Route → List Bytes → RouteState × Bool → Scheduler × RoutePlan
plan_weighted s rt route heads (st, stored) =
    let (cw, best) = select st.cw (positive_members rt heads) in
    (store s route stored (record st { cw = cw }), filled_plan rt route (best ∷ without heads best))

plan_round_robin :
    Scheduler → Runtime → Route → List Bytes → RouteState × Bool → Scheduler × RoutePlan
plan_round_robin s rt route heads (st, stored) = (
  store s route stored (record st { cursor = st.cursor + 1 }),
  filled_plan rt route (rotate (st.cursor % length heads) heads),
)

unfoldable pub plan : Scheduler → Runtime → Route → List Bytes → Scheduler × RoutePlan
unfolding empty_plan filled_plan plan_weighted plan_round_robin
plan s rt route heads =
    if is_empty heads
    then (s, empty_plan route)
    else if is_weighted route.strategy
    then (if is_empty (positive_members rt heads)
        then (s, empty_plan route)
        else plan_weighted s rt route heads (state_for s route rt))
    else plan_round_robin s rt route heads (state_for s route rt)

unfoldable pub prune_routes : Scheduler → List Bytes → Scheduler × ℕ
prune_routes s keep = (GoMap.retain (contains keep) s, GoMap.dropped (contains keep) s)
