-- ===== src/Upstream/Limiter/Bracket.antt =====
-- One request's Acquire and Release on the gate.
use ocfp.Prelude.{ℕ, suc, ◌+◌, ◌≡◌, true, false, Bytes, ◌==◌, eq_refl, arith}
use ocfp.Prelude.Int.{ℤ, pos, ◌≤ℤ◌}
use ocfp.Upstream.Limiter.{
  Limiter, in_flight, peek, acquire, release, in_flight-acquire, in_flight-release,
  in_flight-set_count,
}

-- Acquire grants a slot exactly when Peek reports one free, and a refusal changes no count.
pub acquire-peek :
    (l : Limiter) (id : Bytes) (max : ℤ)
    → ((acquire l id max).1 ≡ peek l id max) × (peek l id max ≡ false → (acquire l id max).0 ≡ l)
unfolding acquire peek
acquire-peek l id max = ground arith

-- Under a positive cap that the count does not pass, Acquire keeps every count at most the cap of
-- its id, and every other id's count as it was.
pub acquire_bounded :
    (l : Limiter) (id k : Bytes) (max : ℤ)
    → pos 1 ≤ℤ max
    → pos (in_flight l id) ≤ℤ max
    → (pos (in_flight (acquire l id max).0 id) ≤ℤ max)
      × (id == k ≡ false → in_flight (acquire l id max).0 k ≡ in_flight l k)
unfolding acquire
acquire_bounded l id k max p h = ground (
  arith,
  in_flight-set_count l id id (in_flight l id + 1),
  in_flight-set_count l id k (in_flight l id + 1),
  eq_refl id,
)

-- A granted Acquire under a positive cap, and its Release, leave every count as it was.
pub release-acquire :
    (l : Limiter) (id k : Bytes) (max : ℤ)
    → pos 1 ≤ℤ max
    → (acquire l id max).1 ≡ true
    → in_flight (release (acquire l id max).0 id) k ≡ in_flight l k
release-acquire l id k max p h =
    ground (arith, in_flight-release (acquire l id max).0 id k, in_flight-acquire l id k max)

-- Without a cap Acquire counts nothing, but the Release that pairs with it takes a slot from
-- whoever holds one of the same id: a count of n + 1 becomes n.
pub release-acquire_unlimited :
    (l : Limiter) (id : Bytes) (max : ℤ) (n : ℕ)
    → max ≤ℤ pos 0
    → in_flight l id ≡ suc n
    → ((acquire l id max).1 ≡ true) × (in_flight (release (acquire l id max).0 id) id ≡ n)
unfolding acquire
release-acquire_unlimited l id max n p h = ground (arith, in_flight-release l id id, eq_refl id)
