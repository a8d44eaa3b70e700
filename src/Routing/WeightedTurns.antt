-- ===== src/Routing/WeightedTurns.antt =====
-- Weighted round robin: the leaders of consecutive plans keep to their shares.
use ocfp.Prelude.{
  ℕ, ◌^◌, ◌<◌, length, zero, suc, ◌+◌, ◌*◌, ◌≤◌, ◌≡◌, refl, ap, ◌∙◌, Bool, true, false, List, [],
  ◌∷◌, Bytes, arith, count,
}
use ocfp.Prelude.Int.{ℤ, pos, ltb_ℤ}
use ocfp.Prelude.GoMap.{Map}
use ocfp.Config.File.{Route}
use ocfp.Config.Validate.{contains, is_empty}
use ocfp.Config.Validate.Sets.{Distinct, All}
use ocfp.Config.Runtime.{Runtime}
use ocfp.Routing.{
  Scheduler, RouteState, Candidate, weight_of, positive_members, select, is_weighted, plan,
}
use ocfp.Routing.Exact.{ids, weight_in, weight_sum}
use ocfp.Routing.Weighted.{IsPositive}
use ocfp.Routing.Share.{select_times, select_times_share}
use ocfp.Routing.Heads.{
  plan_weighted_attempts, contains-positive_members, positive_members-Distinct,
  positive_members-IsPositive, positive_members-weight_in,
}
use ocfp.Routing.Lifecycle.{is_routable, advance}
use ocfp.Routing.Turns.{first, plan_times, PlansWith, plan-PlansWith}

-- The leaders of consecutive plans are the picks of consecutive selections.
plan_times-select_times :
    (n : ℕ) (s : Scheduler) (rt : Runtime) (route : Route) (heads : List Bytes) (st : RouteState)
    → PlansWith s rt route st
    → is_weighted route.strategy ≡ true
    → is_empty heads ≡ false
    → is_empty (positive_members rt heads) ≡ false
    → (plan_times n s rt route heads).1 ≡ (select_times n st.cw (positive_members rt heads)).1
plan_times-select_times zero s rt route heads st p w h q = refl
plan_times-select_times (suc n) s rt route heads st p w h q =
    let r : is_routable rt route heads ≡ true = ground arith in
    let next : (advance rt route heads st).cw ≡ (select st.cw (positive_members rt heads)).0 =
      ground arith in
    let now : first (plan s rt route heads).1.attempts
        ≡ (select st.cw (positive_members rt heads)).1 =
      ap first (plan_weighted_attempts s rt route heads w h q)
      ∙ ap (λ (t : RouteState × Bool). (select t.0.cw (positive_members rt heads)).1) p.0 in
    let later =
      plan_times-select_times n (plan s rt route heads).0 rt route heads (advance rt route heads st)
        (plan-PlansWith s rt route heads st p r) w h q in
    cc (now, later, ap (λ (cw : Map ℤ). (select_times n cw (positive_members rt heads)).1) next)

nonempty : (heads : List Bytes) (k : Bytes) → contains heads k ≡ true → is_empty heads ≡ false
unfolding contains
nonempty [] k m = cc
nonempty (x ∷ heads) k m = refl

nonempty_pool :
    (pool : List Candidate) (k : Bytes) → contains (ids pool) k ≡ true → is_empty pool ≡ false
unfolding contains
nonempty_pool [] k m = cc
nonempty_pool (x ∷ pool) k m = refl

share_of_pool :
    (n : ℕ) (pool : List Candidate) (k : Bytes) (w t : ℕ)
    → Distinct (ids pool)
    → All IsPositive pool
    → contains (ids pool) k ≡ true
    → weight_in k pool ≡ pos w
    → weight_sum pool ≡ pos t
    → length pool * t < 2 ^ 62
    → count k (select_times n [] pool).1 * t + 1 ≤ n * w + t
unfolding contains
share_of_pool n [] k w t d p m h s small = cc
share_of_pool n (c ∷ pool) k w t d p m h s small = select_times_share n c pool k w t d p m h s small

-- Under weighted round robin, from the route's stored state with no current weights, in n consecutive plans of
-- one route of one snapshot over the same distinct heads, a head of positive weight w leads fewer than
-- n * w / t + 1 times, never a whole turn ahead of its share: t is the sum of the positive weights, and t
-- times the number of heads of positive weight is below 2^62, so that no int wraps.
pub plan_times_share :
    (n : ℕ) (s : Scheduler) (rt : Runtime) (route : Route) (heads : List Bytes) (st : RouteState)
    (k : Bytes) (w t : ℕ)
    → PlansWith s rt route st
    → st.cw ≡ []
    → is_weighted route.strategy ≡ true
    → Distinct heads
    → contains heads k ≡ true
    → weight_of rt k ≡ pos (suc w)
    → weight_sum (positive_members rt heads) ≡ pos t
    → length (positive_members rt heads) * t < 2 ^ 62
    → count k (plan_times n s rt route heads).1 * t + 1 ≤ n * suc w + t
plan_times_share n s rt route heads st k w t p e i d m h q small =
    let positive : ltb_ℤ (pos 0) (weight_of rt k) ≡ true = rw h (ground arith) in
    let member : contains (ids (positive_members rt heads)) k ≡ true =
      contains-positive_members rt heads k ∙ (rw (m, positive) refl) in
    let same =
      plan_times-select_times n s rt route heads st p i (nonempty heads k m)
        (nonempty_pool (positive_members rt heads) k member) in
    let bound =
      share_of_pool n (positive_members rt heads) k (suc w) t (positive_members-Distinct rt heads d)
        (positive_members-IsPositive rt heads) member
        (positive_members-weight_in rt heads k d m positive ∙ h) q small in
    rw (same ∙ ap (λ (cw : Map ℤ). (select_times n cw (positive_members rt heads)).1) e) bound
