-- ===== src/Tests/Calls.antt =====
-- The theorems on the retrying call and on the executor at a network that only rate-limits.
use ocfp.Prelude.{
  ℕ, ◌≤◌, ◌≡◌, inl, refl, Bool, true, false, none, some, [], ◌∷◌, Option, Bytes, bytes,
}
use ocfp.Prelude.Int.{pos}
use ocfp.Config.File.{Egress}
use ocfp.Health.{new_registry}
use ocfp.Health.Streak.{Reading}
use ocfp.Routing.{RoutePlan}
use ocfp.Upstream.Failure.{classify_status_for, marks_health}
use ocfp.Upstream.Limiter.{new_limiter}
use ocfp.Upstream.Recorder.{Recorder, new_recorder}
use ocfp.Upstream.ErrorBody.{ErrorBody}
use ocfp.Upstream.Client.{Dial, Outcome, Reply, do_classified, max_dials}
use ocfp.Upstream.Client.Retries.{verdict, do_classified-verdict, do_classified_once}
use ocfp.Upstream.Executor.{AttemptPolicy, World, Answer, budget, execute}
use ocfp.Upstream.Executor.Verdicts.{IsHonest, execute-IsHonest}
use ocfp.Upstream.Executor.Neutral.{IsNeutral, execute_neutral}
use ocfp.Tests.Samples.{home, home_egress}

abbrev decode : Bytes → Option ErrorBody
decode body = none

abbrev limited : Dial
limited = record {
  outcome = Outcome.answered 429 (bytes "slow down");
  done_at_class = false;
  done_at_retry = false;
}

abbrev net : ℕ → Dial
net n = limited

abbrev clock : ℕ → Reading
clock n = record { now = pos n; armed_at = pos n }

abbrev has_client : Egress → Bool
has_client e = true

abbrev policy : AttemptPolicy
policy = record {
  fallback_enabled = true;
  max_attempts = pos 2;
  max_concurrency = [];
  health_policy = record { enabled = true; threshold = pos 1; cooldown = pos 5 };
}

abbrev plan : RoutePlan
plan = record {
  route_id = bytes "r";
  strategy = [];
  attempts = home ∷ [];
  egresses = some home_egress ∷ [];
}

abbrev world : World
world = record { registry = new_registry; limiter = new_limiter; recorder = new_recorder }

do_classified-verdict_example :
    (reply : Reply) × (rec : Recorder) × (n : ℕ) × (do_classified decode net new_recorder
      ≡ some (reply, rec, n))
    × (1 ≤ n)
    × (n ≤ max_dials)
    × (reply ≡ verdict decode (net n) (net n).outcome)
do_classified-verdict_example = do_classified-verdict decode net new_recorder

do_classified_once_example :
    (rec : Recorder) × (do_classified decode net new_recorder
      ≡ some (verdict decode (net 1) (net 1).outcome, rec, 1))
do_classified_once_example = do_classified_once decode net new_recorder (inl refl)

execute-IsHonest_example :
    (a : Answer) × (execute decode (λ n. net) clock has_client policy plan world ≡ some a)
    × (a.attempts ≤ budget policy)
    × IsHonest decode (λ n. net) clock has_client policy a
execute-IsHonest_example = execute-IsHonest decode (λ n. net) clock has_client policy plan world

abbrev answer : Answer
answer = (execute-IsHonest decode (λ n. net) clock has_client policy plan world).0

neutral : (n d : ℕ) → IsNeutral (verdict decode (net d) (net d).outcome)
unfolding classify_status_for marks_health
neutral n d = refl

execute_neutral_example : answer.world.registry ≡ new_registry
execute_neutral_example =
    execute_neutral decode (λ n. net) clock has_client policy plan world neutral
      (execute-IsHonest decode (λ n. net) clock has_client policy plan world).1
