-- ===== src/Tests/Plans.antt =====
-- The scheduler theorems at the sample snapshot.
use ocfp.Prelude.{
  ℕ, ◌^◌, ◌+◌, ◌*◌, ◌≤◌, ◌<◌, ◌≡◌, ◌≢◌, refl, true, false, some, [], ◌∷◌, List, Bytes, ◌==◌, bytes,
  count, length, get_elem?, has_control_byte, arith,
}
use ocfp.Prelude.Int.{pos, ltb_ℤ, ◌+ℤ◌, ◌-ℤ◌, wrap64}
use ocfp.Prelude.GoMap
use ocfp.Config.Validate.{contains}
use ocfp.Config.Validate.Sets.{Distinct}
use ocfp.Config.Resolve.{snapshot, index_egress}
use ocfp.Routing.{
  Scheduler, RouteState, Candidate, weight_of, positive_members, is_weighted, current, poll, select,
  plan, scheduler_fingerprint,
}
use ocfp.Routing.Fingerprint.{IsPlain, SameShape, fingerprint-SameShape, SameShape-fingerprint}
use ocfp.Routing.Lifecycle.{is_routable, state_for_same, plan_stale}
use ocfp.Routing.Heads.{picked, plan_weighted_heads}
use ocfp.Routing.Turns.{plan_times, PlansWith}
use ocfp.Routing.RoundRobin.{plan_times_covers}
use ocfp.Routing.Weighted.{HasRoom, Selects, select-Selects}
use ocfp.Routing.WeightedTurns.{plan_times_share}
use ocfp.Tests.Samples.{rt, home, away, turns, shares}

abbrev heads : List Bytes
heads = home ∷ away ∷ []

abbrev tagged : Bytes → ℕ → RouteState
tagged fp n = record { fingerprint = fp; generation = n; cursor = 1; cw = [] }

abbrev held : RouteState → Scheduler
held st = (turns.id, st) ∷ []

abbrev fp : Bytes
fp = scheduler_fingerprint turns rt

held_turns : (st : RouteState) → GoMap.get turns.id (held st) ≡ some st
unfolding GoMap.get ◌==◌
held_turns st = refl

Distinct-heads : Distinct heads
unfolding contains ◌==◌
Distinct-heads = (refl, (refl, tt))

home_weight : weight_of rt home ≡ pos 2
unfolding weight_of snapshot index_egress GoMap.get GoMap.put ◌==◌
home_weight = refl

two_members :
    positive_members rt heads
    ≡ record { id = home; w = pos 2 } ∷ record { id = away; w = pos 1 } ∷ []
unfolding positive_members weight_of snapshot index_egress GoMap.get GoMap.put ◌==◌
two_members = refl

fp_mismatch : bytes "other" ≢ fp
unfolding scheduler_fingerprint
fp_mismatch e = cc e

-- one stored state for the weighted route, before its first selection
abbrev share_state : RouteState
share_state = record (tagged (scheduler_fingerprint shares rt) 0) { cursor = 0 }

abbrev held_share : Scheduler
held_share = (shares.id, share_state) ∷ []

held_shares : GoMap.get shares.id held_share ≡ some share_state
unfolding GoMap.get ◌==◌
held_shares = refl

shares_weighted : is_weighted shares.strategy ≡ true
unfolding ◌==◌
shares_weighted = refl

turns_plain : is_weighted turns.strategy ≡ false
unfolding ◌==◌
turns_plain = refl

share_PlansWith : PlansWith held_share rt shares share_state
share_PlansWith = (state_for_same held_share rt shares heads share_state held_shares refl, refl)

abbrev turn_state : RouteState
turn_state = tagged fp 0

turn_PlansWith : PlansWith (held turn_state) rt turns turn_state
turn_PlansWith =
    (state_for_same (held turn_state) rt turns heads turn_state (held_turns turn_state) refl, refl)

turns_routable : is_routable rt turns heads ≡ true
turns_routable = rw turns_plain refl

plan_times_share_example :
    count home (plan_times 7 held_share rt shares heads).1 * 3 + 1 ≤ 7 * 2 + 3
plan_times_share_example =
    plan_times_share 7 held_share rt shares heads share_state home 1 3 share_PlansWith refl
      shares_weighted Distinct-heads (unfold contains ◌==◌ in refl) home_weight
      (rw two_members (unfold ◌+ℤ◌ in refl)) (rw two_members (omega arith))

plan_times_covers_example :
    (i : ℕ) × (i < length heads)
    × (get_elem? (plan_times (length heads) (held turn_state) rt turns heads).1 i
        ≡ get_elem? heads 1)
plan_times_covers_example =
    plan_times_covers (held turn_state) rt turns heads turn_state 1 turn_PlansWith turns_plain
      (omega arith)

plan_weighted_heads_example :
    let attempts = (plan held_share rt shares heads).1.attempts in
    (get_elem? attempts 0 ≡ some (picked held_share rt shares heads))
    × (ltb_ℤ (pos 0) (weight_of rt (picked held_share rt shares heads)) ≡ true)
    × (count away attempts ≡ count away heads)
plan_weighted_heads_example =
    plan_weighted_heads held_share rt shares heads away shares_weighted refl (rw two_members refl)
      Distinct-heads

abbrev pool : List Candidate
pool = record { id = away; w = pos 1 } ∷ []

room : HasRoom [] (record { id = home; w = pos 2 } ∷ pool)
unfolding current GoMap.get ◌+ℤ◌
room = record {
  weights = (omega arith, (omega arith, tt));
  sum = omega arith;
  currents = ((omega arith, omega arith), ((omega arith, omega arith), tt));
}

select-Selects_example :
    Selects []
      (record { id = home; w = pos 2 } ∷ pool)
      (select [] (record { id = home; w = pos 2 } ∷ pool))
select-Selects_example =
    select-Selects [] (record { id = home; w = pos 2 }) pool
      (unfold contains ◌==◌ in Distinct-heads) room

turns-IsPlain : IsPlain turns
unfolding has_control_byte
turns-IsPlain = record { strategy = refl; id = refl; egress = (refl, (refl, tt)) }

same_fingerprint :
    scheduler_fingerprint turns rt ≡ scheduler_fingerprint turns (record rt { generation = 4 })
same_fingerprint =
    SameShape-fingerprint rt (record rt { generation = 4 }) turns turns
      (refl, refl, refl, λ _. unfold weight_of in refl)

fingerprint-SameShape_example : SameShape rt turns (record rt { generation = 4 }) turns
fingerprint-SameShape_example =
    fingerprint-SameShape rt (record rt { generation = 4 }) turns turns turns-IsPlain turns-IsPlain
      same_fingerprint

abbrev other : RouteState
other = tagged (bytes "other") 0

abbrev newer : RouteState
newer = tagged (bytes "other") 9

plan_stale_example :
    ((plan (held newer) rt turns heads).0 ≡ held newer)
    × ((plan (held newer) rt turns heads).1 ≡ (plan [] rt turns heads).1)
plan_stale_example =
    plan_stale (held newer) rt turns heads newer (held_turns newer) fp_mismatch
      (unfold snapshot in omega arith)

-- two weights that Validate accepts
abbrev huge : List Candidate
huge = record { id = home; w = pos (2 ^ 62) } ∷ record { id = away; w = pos (2 ^ 62) } ∷ []

-- Their total wraps, and the first head leads twice in a row.
huge_twice : let once = select [] huge in (once.1 ≡ home) × ((select once.0 huge).1 ≡ home)
unfolding select poll current wrap64 GoMap.get GoMap.put ◌==◌ ◌+ℤ◌ ◌-ℤ◌
huge_twice = (refl, refl)
