-- ===== src/Tests/Agents.antt =====
-- The theorem on the User-Agent cache, at one fetch with a caller that finds it running.
use ocfp.Prelude.{refl, true, false, some, [], bytes}
use ocfp.Identity.UserAgent.{Triple, enter, leave}
use ocfp.Identity.UserAgent.Flights.{
  World, Step, Reach, IsSingle, initial, after_enter, after_leave, reach-IsSingle,
}

abbrev fallback : Triple
fallback = record { opencode = bytes "1"; provider_utils = []; bun = [] }

abbrev newer : Triple
newer = record { opencode = bytes "2"; provider_utils = bytes "3"; bun = bytes "4" }

abbrev first : World
unfolding enter
first = after_enter fallback 5 (initial fallback 5) 7 true

abbrev second : World
unfolding enter first
second = after_enter fallback 5 first 8 false

abbrev last : World
unfolding leave second
last = after_leave fallback 5 second 0 9 (some newer)

run : Reach fallback 5 (initial fallback 5) last
unfolding enter leave first second last
run =
    Reach.next
      (Reach.next (Reach.next Reach.here (Step.enters (initial fallback 5) 7 true))
        (Step.enters first 8 false))
      (Step.leaves second 0 9 (some newer) refl)

reach-IsSingle_example : IsSingle fallback 5 last
reach-IsSingle_example = reach-IsSingle fallback 5 run
