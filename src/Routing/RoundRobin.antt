-- ===== src/Routing/RoundRobin.antt =====
-- Round robin: consecutive plans turn through the heads.
use ocfp.Prelude.{
  ℕ, zero, suc, ◌+◌, ◌-◌, ◌%◌, ◌<◌, ◌≡◌, refl, sym, ap, ◌∙◌, Bool, true, false, some, List, [], ◌∷◌,
  ◌++◌, Bytes, arith, length, take, drop, get_elem?,
}
use ocfp.Config.File.{Route}
use ocfp.Config.Validate.{is_empty}
use ocfp.Config.Runtime.{Runtime}
use ocfp.Routing.{Scheduler, RouteState, is_weighted, state_for, plan}
use ocfp.Routing.Heads.{plan_round_robin_attempts}
use ocfp.Routing.Lifecycle.{is_routable, advance}
use ocfp.Routing.Turns.{first, plan_times, PlansWith, plan-PlansWith}
use native.Mathlib.Nat.{mod-lt, mod-eq_of_lt, mod-add-mod, add-mod_right}
use native.Mathlib.Decide.{dec_le}

first-drop :
    (i : ℕ) (heads rest : List Bytes)
    → i < length heads
    → some (first (drop i heads ++ rest)) ≡ get_elem? heads i
first-drop i [] rest h = absurd (omega arith)
first-drop zero (x ∷ heads) rest h = refl
first-drop (suc i) (x ∷ heads) rest h = first-drop i heads rest (omega arith)

nonempty_length : (heads : List Bytes) → is_empty heads ≡ false → 0 < length heads
nonempty_length [] h = absurd (ground arith)
nonempty_length (x ∷ heads) h = omega arith

empty_length : (heads : List Bytes) {j : ℕ} → j < length heads → is_empty heads ≡ false
empty_length [] h = absurd (omega arith)
empty_length (x ∷ heads) h = refl

leader :
    (s : Scheduler) (rt : Runtime) (route : Route) (heads : List Bytes) (st : RouteState)
    → PlansWith s rt route st
    → is_weighted route.strategy ≡ false
    → is_empty heads ≡ false
    → some (first (plan s rt route heads).1.attempts) ≡ get_elem? heads (st.cursor % length heads)
leader s rt route heads st (e, f) w h =
    let c : (state_for s route rt).0.cursor ≡ st.cursor =
      ap (λ (p : RouteState × Bool). p.0.cursor) e in
    rw (plan_round_robin_attempts s rt route heads w h) (
      rw c (
        first-drop (st.cursor % length heads) heads (take (st.cursor % length heads) heads)
          (mod-lt st.cursor (nonempty_length heads h))))

-- how many turns from the cursor to the place j, round a list of n
turns_to : (c j n : ℕ) → j < n → (i : ℕ) × (i < n) × ((c + i) % n ≡ j)
turns_to c j n h = elim (dec_le (c % n) j) [
  | yes p ↦ (
    j - c % n,
    omega arith,
    sym (mod-add-mod c n (j - c % n)) ∙ ap (λ t. t % n) (omega arith) ∙ mod-eq_of_lt h,
  )
  | no p ↦
      let below : c % n < n = mod-lt c (omega arith) in
      (
        j + n - c % n,
        omega arith,
        sym (mod-add-mod c n (j + n - c % n))
            ∙ ap (λ t. t % n) (omega arith)
            ∙ add-mod_right j n
            ∙ mod-eq_of_lt h,
      )
]

-- The i-th of n consecutive plans is led by the head at the cursor plus i, round the list.
pub plan_times_leader :
    (n : ℕ) (s : Scheduler) (rt : Runtime) (route : Route) (heads : List Bytes) (st : RouteState)
    (i : ℕ)
    → PlansWith s rt route st
    → is_weighted route.strategy ≡ false
    → is_empty heads ≡ false
    → i < n
    → get_elem? (plan_times n s rt route heads).1 i
      ≡ get_elem? heads ((st.cursor + i) % length heads)
plan_times_leader zero s rt route heads st i p w h l = absurd (omega arith)
plan_times_leader (suc n) s rt route heads st zero p w h l =
    leader s rt route heads st p w h ∙ ap (λ c. get_elem? heads (c % length heads)) (omega arith)
plan_times_leader (suc n) s rt route heads st (suc i) p w h l =
    let r : is_routable rt route heads ≡ true = ground arith in
    let advanced : (advance rt route heads st).cursor ≡ st.cursor + 1 = ground arith in
    plan_times_leader n (plan s rt route heads).0 rt route heads (advance rt route heads st) i
      (plan-PlansWith s rt route heads st p r) w h (omega arith)
    ∙ ap (λ c. get_elem? heads (c % length heads)) (omega (arith, advanced))

-- Under a strategy that is not weighted round robin: of as many consecutive plans of one route of one
-- snapshot over the same heads, planned with the stored state of that route, as there are heads, each
-- head leads one.
pub plan_times_covers :
    (s : Scheduler) (rt : Runtime) (route : Route) (heads : List Bytes) (st : RouteState) (j : ℕ)
    → PlansWith s rt route st
    → is_weighted route.strategy ≡ false
    → j < length heads
    → (i : ℕ) × (i < length heads)
      × (get_elem? (plan_times (length heads) s rt route heads).1 i ≡ get_elem? heads j)
plan_times_covers s rt route heads st j p w l =
    let (i, below, e) = turns_to st.cursor j (length heads) l in
    (
      i,
      below,
      plan_times_leader (length heads) s rt route heads st i p w (empty_length heads l) below
          ∙ ap (get_elem? heads) e,
    )
