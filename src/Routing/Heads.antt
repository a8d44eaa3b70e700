-- ===== src/Routing/Heads.antt =====
-- The attempts of a plan: a rearrangement of the heads, with a head of positive weight in front under
-- weighted round robin.
use ocfp.Prelude.{
  and_true, get_elem?, some, ℕ, ◌%◌, ◌≡◌, refl, sym, ap, ◌∙◌, true, false, ◌&&◌, List, [], ◌∷◌,
  Bytes, ◌==◌, eq→≡, eq_refl, eq_iff, arith, if◌then◌else◌, Bool-cases, inl, inr, length, take,
  drop, take-append-drop, count, count-append, subst,
}
use ocfp.Prelude.Int.{ℤ, pos, ltb_ℤ, int_laws}
use ocfp.Prelude.GoMap.{Map}
use ocfp.Config.File.{Route}
use ocfp.Config.Validate.{contains, is_empty}
use ocfp.Config.Validate.Sets.{All, Distinct}
use ocfp.Config.Runtime.{Runtime}
use ocfp.Routing.{
  Scheduler, Candidate, weight_of, without, positive_members, select, rotate, is_weighted,
  state_for, plan,
}
use ocfp.Routing.Exact.{ids, weight_in, absent-weight_in}
use ocfp.Routing.Weighted.{IsPositive, select-member}

-- The pool holds those heads, each with its weight, whose weight is positive.
pub contains-positive_members :
    (rt : Runtime) (heads : List Bytes) (k : Bytes)
    → contains (ids (positive_members rt heads)) k
      ≡ (contains heads k && ltb_ℤ (pos 0) (weight_of rt k))
unfolding positive_members contains
contains-positive_members rt [] k = refl
contains-positive_members rt (h ∷ heads) k = elim (Bool-cases (h == k)) [
  | inl e ↦
      let same : h ≡ k = eq→≡ h k e in
      rw same (ground (arith, eq_refl k, contains-positive_members rt heads k))
  | inr e ↦ ground (arith, contains-positive_members rt heads k)
]

pub positive_members-Distinct :
    (rt : Runtime) (heads : List Bytes)
    → Distinct heads
    → Distinct (ids (positive_members rt heads))
unfolding positive_members
positive_members-Distinct rt [] d = tt
positive_members-Distinct rt (h ∷ heads) d = elim (Bool-cases (ltb_ℤ (pos 0) (weight_of rt h))) [
  | inl e ↦ rw e (
    ground (arith, contains-positive_members rt heads h, d.0),
    positive_members-Distinct rt heads d.1,
  )
  | inr e ↦ rw e (positive_members-Distinct rt heads d.1)
]

pub positive_members-IsPositive :
    (rt : Runtime) (heads : List Bytes) → All IsPositive (positive_members rt heads)
unfolding positive_members
positive_members-IsPositive rt [] = tt
positive_members-IsPositive rt (h ∷ heads) = elim (Bool-cases (ltb_ℤ (pos 0) (weight_of rt h))) [
  | inl e ↦ rw e (ground arith, positive_members-IsPositive rt heads)
  | inr e ↦ rw e (positive_members-IsPositive rt heads)
]

pub positive_members-weight_in :
    (rt : Runtime) (heads : List Bytes) (k : Bytes)
    → Distinct heads
    → contains heads k ≡ true
    → ltb_ℤ (pos 0) (weight_of rt k) ≡ true
    → weight_in k (positive_members rt heads) ≡ weight_of rt k
unfolding positive_members contains
positive_members-weight_in rt [] k d m p = cc
positive_members-weight_in rt (h ∷ heads) k d m p = elim (Bool-cases (h == k)) [
  | inl e ↦
      let same : h ≡ k = eq→≡ h k e in
      let gone : contains heads k ≡ false = subst (λ j. contains heads j ≡ false) same d.0 in
      let none_left : weight_in k (positive_members rt heads) ≡ pos 0 =
        absent-weight_in k (positive_members rt heads)
          (ground (arith, contains-positive_members rt heads k)) in
      rw same (rw (p, eq_refl k, none_left) (omega int_laws))
  | inr e ↦
      let rest = positive_members-weight_in rt heads k d.1 (rw e at m) p in
      elim (Bool-cases (ltb_ℤ (pos 0) (weight_of rt h))) [
        | inl f ↦ rw (f, e) rest
        | inr f ↦ rw f rest
      ]
]

count-rotate : (k : Bytes) (i : ℕ) (heads : List Bytes) → count k (rotate i heads) ≡ count k heads
count-rotate k i heads = omega (
  arith,
  count-append k (drop i heads) (take i heads),
  count-append k (take i heads) (drop i heads),
  ap (count k) (take-append-drop i heads),
)

count-without :
    (k dropped : Bytes) (xs : List Bytes)
    → count k (without xs dropped) ≡ (if dropped == k then 0 else count k xs)
unfolding without
count-without k dropped [] = ground arith
count-without k dropped (x ∷ xs) =
    ground (arith, count-without k dropped xs, eq_iff x dropped, eq_iff dropped k, eq_iff x k)

count-Distinct :
    (k : Bytes) (xs : List Bytes) → Distinct xs → count k xs ≡ (if contains xs k then 1 else 0)
unfolding contains
count-Distinct k [] d = refl
count-Distinct k (x ∷ xs) d = ground (arith, count-Distinct k xs d.1, ap (contains xs), eq→≡ x k)

-- the plan that a nonempty pool gives, up to the state it plans with
abbrev pub picked : Scheduler → Runtime → Route → List Bytes → Bytes
picked s rt route heads = (select (state_for s route rt).0.cw (positive_members rt heads)).1

pub plan_weighted_attempts :
    (s : Scheduler) (rt : Runtime) (route : Route) (heads : List Bytes)
    → is_weighted route.strategy ≡ true
    → is_empty heads ≡ false
    → is_empty (positive_members rt heads) ≡ false
    → (plan s rt route heads).1.attempts
      ≡ picked s rt route heads ∷ without heads (picked s rt route heads)
unfolding plan
plan_weighted_attempts s rt route heads w h p = ground arith

pub plan_round_robin_attempts :
    (s : Scheduler) (rt : Runtime) (route : Route) (heads : List Bytes)
    → is_weighted route.strategy ≡ false
    → is_empty heads ≡ false
    → (plan s rt route heads).1.attempts
      ≡ rotate ((state_for s route rt).0.cursor % length heads) heads
unfolding plan
plan_round_robin_attempts s rt route heads w h = ground arith

picked_member :
    (cw : Map ℤ) (rt : Runtime) (heads : List Bytes) (pool : List Candidate)
    → pool ≡ positive_members rt heads
    → Distinct heads
    → is_empty pool ≡ false
    → (contains heads (select cw pool).1 ≡ true)
      × (ltb_ℤ (pos 0) (weight_of rt (select cw pool).1) ≡ true)
picked_member cw rt heads [] e d h = cc
picked_member cw rt heads (c ∷ pool) e d h =
    let m = select-member cw c pool in
    let b = (select cw (c ∷ pool)).1 in
    let m' : contains (ids (positive_members rt heads)) b ≡ true =
      subst (λ p. contains (ids p) b ≡ true) e m in
    and_true (contains heads b) (ltb_ℤ (pos 0) (weight_of rt b))
      (sym (contains-positive_members rt heads b) ∙ m')

-- Under weighted round robin a plan of distinct heads, one of positive weight, begins with a head of
-- positive weight, and its attempts are the heads, each as often as it stands among them.
pub plan_weighted_heads :
    (s : Scheduler) (rt : Runtime) (route : Route) (heads : List Bytes) (k : Bytes)
    → is_weighted route.strategy ≡ true
    → is_empty heads ≡ false
    → is_empty (positive_members rt heads) ≡ false
    → Distinct heads
    → let attempts = (plan s rt route heads).1.attempts in
      (get_elem? attempts 0 ≡ some (picked s rt route heads))
      × (ltb_ℤ (pos 0) (weight_of rt (picked s rt route heads)) ≡ true)
      × (count k attempts ≡ count k heads)
plan_weighted_heads s rt route heads k w h p d =
    let b = picked s rt route heads in
    let (m, positive) =
      picked_member (state_for s route rt).0.cw rt heads (positive_members rt heads) refl d p in
    rw (plan_weighted_attempts s rt route heads w h p) (
      refl,
      positive,
      ground (
        arith,
        count-without k b heads,
        count-Distinct k heads d,
        ap (contains heads),
        eq→≡ b k,
        m,
      ),
    )

-- Under round robin a plan's attempts are the heads, each as often as it stands among them, turned
-- by the cursor.
pub plan_round_robin_heads :
    (s : Scheduler) (rt : Runtime) (route : Route) (heads : List Bytes) (k : Bytes)
    → is_weighted route.strategy ≡ false
    → is_empty heads ≡ false
    → count k (plan s rt route heads).1.attempts ≡ count k heads
plan_round_robin_heads s rt route heads k w h =
    rw (plan_round_robin_attempts s rt route heads w h)
      (count-rotate k ((state_for s route rt).0.cursor % length heads) heads)
