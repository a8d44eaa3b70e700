-- ===== src/Tests/Gates.antt =====
-- The theorems on failure classes and on the concurrency gate at sample egresses.
use ocfp.Prelude.{ℕ, ◌≡◌, refl, true, false, [], ◌∷◌, Bytes, ◌==◌, count, if◌then◌else◌, arith}
use ocfp.Prelude.Int.{ℤ, pos, ◌≤ℤ◌}
use ocfp.Prelude.GoMap
use ocfp.Upstream.Limiter.{Limiter, in_flight, is_unlimited, acquire, release}
use ocfp.Upstream.Limiter.Bracket.{release-acquire_unlimited}
use ocfp.Upstream.Limiter.Holders.{Gate, Step, Reach, empty_gate, entered, gate_counts}
use ocfp.Tests.Samples.{home}

abbrev down : ℕ
down = 503

abbrev one_held : Limiter
one_held = record { cur = (home, 1) ∷ [] }

one_held-home : in_flight one_held home ≡ 1
unfolding in_flight GoMap.get ◌==◌
one_held-home = refl

second_slot : (acquire one_held home (pos 2)).1 ≡ true
unfolding acquire in_flight GoMap.get ◌==◌
second_slot = refl

release-acquire_unlimited_example :
    ((acquire one_held home (pos 0)).1 ≡ true)
    × (in_flight (release (acquire one_held home (pos 0)).0 home) home ≡ 0)
release-acquire_unlimited_example =
    release-acquire_unlimited one_held home (pos 0) 0 (omega arith) one_held-home

abbrev caps : Bytes → ℤ
caps k = if k == home then pos 2 else pos 0

abbrev one_inside : Gate
one_inside = entered caps empty_gate home

one_inside_reached : Reach caps empty_gate one_inside
one_inside_reached = Reach.next Reach.here (Step.enter empty_gate home)

gate_counts_example :
    (in_flight one_inside.limiter home
      ≡ (if is_unlimited (caps home) then 0 else count home one_inside.holders))
    × (is_unlimited (caps home) ≡ false → pos (count home one_inside.holders) ≤ℤ caps home)
gate_counts_example = gate_counts caps one_inside_reached home
