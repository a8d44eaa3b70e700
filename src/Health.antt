-- ===== src/Health.antt =====
-- internal/health/health.go: the failure streak and the cooldown of each identity, judged under the
-- policy that a caller brings along. Each function is one method under the registry's mutex. A time
-- is a count of nanoseconds, and the zero time.Time, which is before every clock reading, is `none`.
pub mod Observing
pub mod Streak
pub mod Pinning
pub mod Requests
use ocfp.Prelude.{
  ℕ, suc, ◌+◌, ◌-◌, Bool, true, false, not, ◌||◌, Option, none, some, List, [], ◌∷◌, ◌++◌, Bytes,
  ltb, eqb, if◌then◌else◌,
}
use ocfp.Prelude.Int.{ℤ, pos, ltb_ℤ, ◌+ℤ◌}
use ocfp.Prelude.GoMap
use ocfp.Prelude.GoMap.{Map}
use ocfp.Config.File.{Route}
use ocfp.Config.Egress.{deref_or, health_key}
use ocfp.Config.Validate.{contains}
use ocfp.Config.Runtime.{Runtime, egress, health_threshold, health_cooldown}

pub record Policy : Type 0 where
  pub enabled : Bool
  pub threshold : ℤ
  pub cooldown : ℤ

unfoldable pub policy_from_snapshot : Runtime → Policy
unfolding health_threshold health_cooldown
policy_from_snapshot rt = record {
  enabled = deref_or rt.health.enabled true;
  threshold = health_threshold rt;
  cooldown = health_cooldown rt;
}

pub record State : Type 0 where
  pub failures : ℕ
  pub until : Option ℤ

pub record Registry : Type 0 where
  pub states : Map State
  pub refs : Map ℕ

abbrev pub new_registry : Registry
new_registry = record { states = []; refs = [] }

abbrev pub or_zero : Option ℕ → ℕ
or_zero none = 0
or_zero (some n) = n

-- r.refs[k]
unfoldable pub pins : Registry → Bytes → ℕ
pins r k = or_zero (GoMap.get k r.refs)

unfoldable pub pin : Registry → List Bytes → Registry
pin r [] = r
pin r (k ∷ ks) = pin (record r { refs = GoMap.put k (pins r k + 1) r.refs }) ks

-- one round of the loop of the function that Pin returns
unfoldable pub unpin : Registry → Bytes → Registry
unpin r k =
    if ltb 0 (pins r k)
    then (if eqb (pins r k) 1
        then record r { refs = GoMap.delete k r.refs }
        else record r { refs = GoMap.put k (pins r k - 1) r.refs })
    else r

unfoldable pub release : Registry → List Bytes → Registry
unfolding unpin
release r [] = r
release r (k ∷ ks) = release (unpin r k) ks

abbrev pub is_kept : Registry → List Bytes → Bytes → Bool
is_kept r active k = contains active k || ltb 0 (pins r k)

unfoldable pub reclaim : Registry → List Bytes → Registry × ℕ
reclaim r active = (
  record r { states = GoMap.retain (is_kept r active) r.states },
  GoMap.dropped (is_kept r active) r.states,
)

unfoldable pub egress_keys : Runtime → List Bytes → List Bytes
egress_keys rt [] = []
egress_keys rt (id ∷ ids) =
    let rest = egress_keys rt ids in
    elim (egress rt id) [ none ↦ rest | some e ↦ health_key e ∷ rest ]

-- a set as the list of its members, some perhaps twice
unfoldable pub route_keys : Runtime → List Route → List Bytes
unfolding egress_keys
route_keys rt [] = []
route_keys rt (r ∷ rs) = egress_keys rt r.egress ++ route_keys rt rs

unfoldable pub active_keys : Runtime → List Bytes
unfolding route_keys
active_keys rt = route_keys rt rt.routes

-- t.Before(until)
abbrev pub is_before : ℤ → Option ℤ → Bool
is_before t none = false
is_before t (some u) = ltb_ℤ t u

abbrev pub fresh_state : State
fresh_state = record { failures = 0; until = none }

-- the state that the body of Observe leaves; the clock is read once for the test, at `now`, and once
-- more, at `armed_at`, if a cooldown starts
unfoldable pub judge : State → ℤ → ℤ → Bool → Policy → State
judge st now armed_at true p = fresh_state
judge st now armed_at false p =
    if is_before now st.until
    then st
    else if ltb_ℤ (pos (st.failures + 1)) p.threshold
    then record st { failures = st.failures + 1 }
    else record { failures = 0; until = some (armed_at +ℤ p.cooldown) }

-- !p.Enabled || p.Threshold <= 0
abbrev pub is_idle : Policy → Bool
is_idle p = not p.enabled || not (ltb_ℤ (pos 0) p.threshold)

abbrev pub state_or_fresh : Option State → State
state_or_fresh none = fresh_state
state_or_fresh (some st) = st

-- the state of an identity, a fresh one where it has none
unfoldable pub state_of : Registry → Bytes → State
state_of r key = state_or_fresh (GoMap.get key r.states)

unfoldable pub observe : Registry → ℤ → ℤ → Bytes → Bool → Policy → Registry
observe r now armed_at key ok p =
    if is_idle p
    then r
    else record r { states = GoMap.put key (judge (state_of r key) now armed_at ok p) r.states }

unfoldable pub healthy : Registry → ℤ → Bytes → Policy → Bool
healthy r now key p = if p.enabled then not (is_before now (state_of r key).until) else true
