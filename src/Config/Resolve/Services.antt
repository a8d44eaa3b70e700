-- ===== src/Config/Resolve/Services.antt =====
-- The policies and the service settings of a snapshot: defaults, explicit zeros, and the interval
-- that is converted from seconds.
use ocfp.Prelude.{ℕ, ◌*◌, ◌≤◌, ◌≡◌, true, arith}
use ocfp.Prelude.Int.{pos, ◌≤ℤ◌, ltb_ℤ}
use ocfp.Config.Std.{Std}
use ocfp.Config.Error.{ok, seq-eq-ok}
use ocfp.Config.File.{File, second, default_health_threshold}
use ocfp.Config.Egress.{deref_or}
use ocfp.Config.Validate.{validate}
use ocfp.Config.Validate.Sound.{validate-IsValid}
use ocfp.Config.Runtime.{Runtime, health_threshold, health_cooldown}
use ocfp.Config.Resolve.{snapshot, seconds, resolve}

-- A sync interval of at most 9,223,372,036 seconds is converted exactly.
pub seconds_exact : (n : ℕ) → n ≤ 9_223_372_036 → seconds (pos n) ≡ pos (n * second)
unfolding seconds
seconds_exact n h = ground arith

-- One from 9,223,372,037 up to 18,446,744,073 seconds becomes a negative duration.
pub seconds_wraps :
    (n : ℕ) → 9_223_372_037 ≤ n → n ≤ 18_446_744_073 → ltb_ℤ (seconds (pos n)) (pos 0) ≡ true
unfolding seconds
seconds_wraps n h k = ground arith

-- The runtime of an accepted document allows at least one attempt, its threshold and cooldown are
-- not negative, an explicit zero threshold stays zero, and an unset one is 3.
pub resolve_policies :
    (std : Std) (f : File) {rt : Runtime}
    → resolve std f ≡ ok rt
    → (pos 1 ≤ℤ rt.fallback.max_attempts)
      × (pos 0 ≤ℤ health_threshold rt)
      × (pos 0 ≤ℤ health_cooldown rt)
      × (health_threshold rt ≡ deref_or f.health.failure_threshold default_health_threshold)
unfolding resolve snapshot health_threshold health_cooldown
resolve_policies std f {rt} h =
    let (accepted, same) = seq-eq-ok (validate std f) (ok (snapshot f)) h in
    let v = validate-IsValid std f accepted in ground (arith, v)
