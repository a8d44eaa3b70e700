-- ===== src/Upstream/Limiter.antt =====
-- internal/upstream/limits.go: the in-flight count of each egress, and its cap.
pub mod Bracket
pub mod Holders
use ocfp.Prelude.{
  ℕ, ◌+◌, ◌-◌, ◌≡◌, Bool, true, false, Option, none, some, [], Bytes, ◌==◌, eq_iff, arith, ltb,
  if◌then◌else◌,
}
use ocfp.Prelude.Int.{ℤ, pos, ltb_ℤ}
use ocfp.Prelude.GoMap
use ocfp.Prelude.GoMap.{Map, get-put}

-- A count is an `int` that starts at 0 and is lowered only above 0.
pub record Limiter : Type 0 where
  pub cur : Map ℕ

abbrev pub new_limiter : Limiter
new_limiter = record { cur = [] }

abbrev pub or_zero : Option ℕ → ℕ
or_zero none = 0
or_zero (some n) = n

-- l.cur[id]
unfoldable pub in_flight : Limiter → Bytes → ℕ
in_flight l id = or_zero (GoMap.get id l.cur)

-- max <= 0
abbrev pub is_unlimited : ℤ → Bool
is_unlimited max = if ltb_ℤ (pos 0) max then false else true

unfoldable pub peek : Limiter → Bytes → ℤ → Bool
peek l id max = if is_unlimited max then true else ltb_ℤ (pos (in_flight l id)) max

abbrev pub set_count : Limiter → Bytes → ℕ → Limiter
set_count l id n = record { cur = GoMap.put id n l.cur }

unfoldable pub acquire : Limiter → Bytes → ℤ → Limiter × Bool
acquire l id max =
    if is_unlimited max
    then (l, true)
    else if ltb_ℤ (pos (in_flight l id)) max
    then (set_count l id (in_flight l id + 1), true)
    else (l, false)

unfoldable pub release : Limiter → Bytes → Limiter
release l id = if ltb 0 (in_flight l id) then set_count l id (in_flight l id - 1) else l

pub in_flight-set_count :
    (l : Limiter) (id k : Bytes) (n : ℕ)
    → in_flight (set_count l id n) k ≡ (if id == k then n else in_flight l k)
unfolding in_flight
in_flight-set_count l id k n = ground (arith, get-put id k n l.cur)

-- The count after Acquire, at every id.
pub in_flight-acquire :
    (l : Limiter) (id k : Bytes) (max : ℤ)
    → in_flight (acquire l id max).0 k ≡ (
        if id == k
        then (if (acquire l id max).1
            then (if is_unlimited max then in_flight l k else in_flight l k + 1)
            else in_flight l k)
        else in_flight l k)
unfolding acquire
in_flight-acquire l id k max =
    ground (arith, in_flight-set_count l id k (in_flight l id + 1), eq_iff id k)

pub in_flight-release :
    (l : Limiter) (id k : Bytes)
    → in_flight (release l id) k ≡ (if id == k then in_flight l k - 1 else in_flight l k)
unfolding release
in_flight-release l id k =
    ground (arith, in_flight-set_count l id k (in_flight l id - 1), eq_iff id k)
