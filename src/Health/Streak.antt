-- ===== src/Health/Streak.antt =====
-- Runs of observations: when a cooldown starts, how long it lasts, and what ends it.
use ocfp.Prelude.{
  ℕ, suc, ◌+◌, ◌≡◌, Bool, true, false, not, Option, none, some, List, [], ◌∷◌, Bytes, ◌==◌, eq→≡,
  eq_refl, subst, Bool-cases, Option-cases, inl, inr, arith, length,
}
use ocfp.Prelude.Int.{ℤ, pos, ltb_ℤ, ◌≤ℤ◌, ◌+ℤ◌}
use ocfp.Config.Validate.Sets.{All}
use ocfp.Health.{
  Policy, State, Registry, is_before, fresh_state, is_idle, judge, state_of, observe, healthy,
}
use ocfp.Health.Observing.{state_of-observe}

-- The two clock readings of an observation.
pub record Reading : Type 0 where
  pub now : ℤ
  pub armed_at : ℤ

-- one failure after another
unfoldable pub observe_failures : Registry → Bytes → Policy → List Reading → Registry
observe_failures r key p [] = r
observe_failures r key p (t ∷ ts) =
    observe_failures (observe r t.now t.armed_at key false p) key p ts

abbrev pub IsArmed : Policy → Type 0
IsArmed p = is_idle p ≡ false

observe_below :
    (r : Registry) (key : Bytes) (p : Policy) (t : Reading) (k : ℕ) (u : Option ℤ)
    → IsArmed p
    → state_of r key ≡ record { failures = k; until = u }
    → is_before t.now u ≡ false
    → ltb_ℤ (pos (k + 1)) p.threshold ≡ true
    → state_of (observe r t.now t.armed_at key false p) key ≡ record { failures = k + 1; until = u }
unfolding judge
observe_below r key p t k u a s b h =
    ground (arith, state_of-observe r t.now t.armed_at key key false p, eq_refl key)

-- Failures that leave the streak below the threshold only count, and change no deadline.
pub observe_failures_below :
    (r : Registry) (key : Bytes) (p : Policy) (ts : List Reading) (k : ℕ) (u : Option ℤ)
    → IsArmed p
    → state_of r key ≡ record { failures = k; until = u }
    → All (λ t. is_before t.now u ≡ false) ts
    → ltb_ℤ (pos (k + length ts)) p.threshold ≡ true
    → state_of (observe_failures r key p ts) key ≡ record { failures = k + length ts; until = u }
unfolding observe_failures
observe_failures_below r key p [] k u a s b h = ground arith
observe_failures_below r key p (t ∷ ts) k u a s b h = ground (
  arith,
  observe_below r key p t k u a s b.0 (ground arith),
  observe_failures_below (observe r t.now t.armed_at key false p) key p ts (k + 1) u a,
)

-- The failure that brings the streak to the threshold starts the cooldown: with a threshold of
-- n + 1, after n failures that met no running cooldown the identity is as healthy as it was, and
-- after one more it is healthy at a time t exactly when t has reached the deadline.
pub observe_failures_arm :
    (r : Registry) (key : Bytes) (p : Policy) (ts : List Reading) (last : Reading) (u : Option ℤ)
    → IsArmed p
    → state_of r key ≡ record { failures = 0; until = u }
    → All (λ t. is_before t.now u ≡ false) ts
    → is_before last.now u ≡ false
    → p.threshold ≡ pos (suc (length ts))
    → let before = observe_failures r key p ts in
      let after = observe before last.now last.armed_at key false p in
      (t : ℤ)
      → (healthy before t key p ≡ healthy r t key p)
        × (healthy after t key p ≡ not (ltb_ℤ t (last.armed_at +ℤ p.cooldown)))
unfolding healthy judge
observe_failures_arm r key p ts last u a s b l e t = ground (
  arith,
  observe_failures_below r key p ts 0 u a s b (ground arith),
  state_of-observe (observe_failures r key p ts) last.now last.armed_at key key false p,
  eq_refl key,
)

-- A failure during a cooldown changes nothing about the identity: the deadline never moves.
pub observe_cooling :
    (r : Registry) (now armed_at : ℤ) (key : Bytes) (p : Policy)
    → is_before now (state_of r key).until ≡ true
    → state_of (observe r now armed_at key false p) key ≡ state_of r key
unfolding judge
observe_cooling r now armed_at key p h =
    ground (arith, state_of-observe r now armed_at key key false p, eq_refl key)

-- A success under an enabled policy that can cool ends a cooldown and the streak at once.
pub observe_success :
    (r : Registry) (now armed_at t : ℤ) (key : Bytes) (p q : Policy)
    → IsArmed p
    → (state_of (observe r now armed_at key true p) key ≡ fresh_state)
      × (healthy (observe r now armed_at key true p) t key q ≡ true)
unfolding judge healthy
observe_success r now armed_at t key p q a =
    ground (arith, state_of-observe r now armed_at key key true p, eq_refl key)

-- One request's observation, whatever its identity, its outcome and its policy.
pub record Observation : Type 0 where
  pub key : Bytes
  pub at : Reading
  pub ok : Bool
  pub policy : Policy

unfoldable pub observe_all : Registry → List Observation → Registry
observe_all r [] = r
observe_all r (o ∷ os) = observe_all (observe r o.at.now o.at.armed_at o.key o.ok o.policy) os

abbrev pub DeadlineBy : ℤ → Option ℤ → Type 0
DeadlineBy d none = Unit
DeadlineBy d (some u) = u ≤ℤ d

healthy_after :
    (r : Registry) (j : Bytes) (d t : ℤ) (p : Policy)
    → DeadlineBy d (state_of r j).until
    → d ≤ℤ t
    → healthy r t j p ≡ true
unfolding healthy
healthy_after r j d t p b h = elim (Option-cases (state_of r j).until) [
  | inl e ↦ ground arith
  | inr (u, e) ↦ let c : u ≤ℤ d = subst (DeadlineBy d) e b in ground arith
]

DeadlineBy-judge :
    (st : State) (now armed_at d : ℤ) (ok : Bool) (p : Policy)
    → armed_at +ℤ p.cooldown ≤ℤ d
    → DeadlineBy d st.until
    → DeadlineBy d (judge st now armed_at ok p).until
unfolding judge
DeadlineBy-judge st now armed_at d true p h b = tt
DeadlineBy-judge st now armed_at d false p h b = elim (Bool-cases (is_before now st.until)) [
  | inl e ↦ rw e b
  | inr e ↦ elim (Bool-cases (ltb_ℤ (pos (st.failures + 1)) p.threshold)) [
    | inl f ↦ rw (e, f) b
    | inr f ↦ rw (e, f) h
  ]
]

DeadlineBy-observe :
    (r : Registry) (o : Observation) (j : Bytes) (d : ℤ)
    → o.at.armed_at +ℤ o.policy.cooldown ≤ℤ d
    → DeadlineBy d (state_of r j).until
    → DeadlineBy d (state_of (observe r o.at.now o.at.armed_at o.key o.ok o.policy) j).until
DeadlineBy-observe r o j d h b = elim (Bool-cases (is_idle o.policy)) [
  | inl e ↦ rw (state_of-observe, e) b
  | inr e ↦ elim (Bool-cases (o.key == j)) [
    | inl f ↦
        let same : o.key ≡ j = eq→≡ o.key j f in
        rw (state_of-observe, e, f)
          (DeadlineBy-judge (state_of r o.key) o.at.now o.at.armed_at d o.ok o.policy h (rw same b))
    | inr f ↦ rw (state_of-observe, e, f) b
  ]
]

-- Whatever requests observe under whatever policies: if each cooldown that could start would end by
-- d, and none of an identity runs beyond d at the start, then from d on the identity is healthy
-- under every policy.
pub observe_all_absence :
    (os : List Observation) (r : Registry) (j : Bytes) (d t : ℤ) (p : Policy)
    → All (λ o. o.at.armed_at +ℤ o.policy.cooldown ≤ℤ d) os
    → DeadlineBy d (state_of r j).until
    → d ≤ℤ t
    → healthy (observe_all r os) t j p ≡ true
unfolding observe_all
observe_all_absence [] r j d t p a b h = healthy_after r j d t p b h
observe_all_absence (o ∷ os) r j d t p a b h =
    observe_all_absence os (observe r o.at.now o.at.armed_at o.key o.ok o.policy) j d t p a.1
      (DeadlineBy-observe r o j d a.0 b) h
