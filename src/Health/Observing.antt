-- ===== src/Health/Observing.antt =====
-- One observation, on every branch.
use ocfp.Prelude.{◌≡◌, Bool, true, false, Bytes, ◌==◌, arith, if◌then◌else◌}
use ocfp.Prelude.Int.{ℤ}
use ocfp.Prelude.GoMap.{get-put}
use ocfp.Health.{Policy, Registry, pins, is_idle, judge, state_of, observe}

pub state_of-observe :
    (r : Registry) (now armed_at : ℤ) (key j : Bytes) (ok : Bool) (p : Policy)
    → state_of (observe r now armed_at key ok p) j ≡ (
        if is_idle p
        then state_of r j
        else if key == j
        then judge (state_of r key) now armed_at ok p
        else state_of r j)
unfolding observe state_of
state_of-observe r now armed_at key j ok p =
    ground (arith, get-put key j (judge (state_of r key) now armed_at ok p) r.states)

-- An observation leaves the pins and the state of every other identity alone, and under a policy
-- that is disabled or never cools the state of its own identity too.
pub observe_frame :
    (r : Registry) (now armed_at : ℤ) (key j : Bytes) (ok : Bool) (p : Policy)
    → (pins (observe r now armed_at key ok p) j ≡ pins r j)
      × (key == j ≡ false → state_of (observe r now armed_at key ok p) j ≡ state_of r j)
      × (is_idle p ≡ true → observe r now armed_at key ok p ≡ r)
unfolding pins
observe_frame r now armed_at key j ok p = (
  unfold observe in ground arith,
  λ e. ground (arith, state_of-observe r now armed_at key j ok p),
  λ e. unfold observe in ground arith,
)
