-- ===== src/Router/Heads.antt =====
-- The head set of a request: exactly the eligible egresses of the route.
use ocfp.Prelude.{
  ◌⊎◌, refl, ◌∙◌, ◌≡◌, [], ◌∷◌, List, Bytes, ◌==◌, eq→≡, ap, Bool-cases, inl, inr, count,
  if◌then◌else◌, arith,
}
use ocfp.Prelude.Int.{ℤ}
use ocfp.Config.Std.{Std}
use ocfp.Config.File.{Route}
use ocfp.Config.Runtime.{Runtime}
use ocfp.Health.{Policy, Registry}
use ocfp.Routing.{Profile}
use ocfp.Upstream.Limiter.{Limiter}
use ocfp.Router.Eligible.{Serves, is_eligible-Serves, Serves-is_eligible}
use ocfp.Router.{is_eligible, heads_of, route_heads}

module _ (std : Std) (rt : Runtime) (registry : Registry) (limiter : Limiter) (now : ℤ)
    (p : Profile) (hp : Policy) where
  count-heads_of :
      (ids : List Bytes) (k : Bytes)
      → count k (heads_of std rt registry limiter now p hp ids)
        ≡ (if is_eligible std rt registry limiter now p hp k then count k ids else 0)
  unfolding heads_of
  count-heads_of [] k = ground arith
  count-heads_of (id ∷ ids) k =
      let eligible = is_eligible std rt registry limiter now p hp in
      elim (Bool-cases (id == k)) [
        | inl e ↦
            let same : eligible id ≡ eligible k = ap eligible (eq→≡ id k e) in
            ground (arith, count-heads_of ids k)
        | inr e ↦ ground (arith, count-heads_of ids k)
      ]

  -- The heads of a request are the ids of its route that serve it: each stands among them as often as the
  -- route lists it, and any other id not at all. An id serves the request if the snapshot knows its egress;
  -- it is not switched off, nor off for streaming when the request streams; it names no models or a pattern
  -- that the model matches; the body is within its bound, if it has one; its cooldown, if it has one and the
  -- policy is enabled, is over; and fewer requests than its cap, if it has one, are in flight on it.
  pub count-route_heads :
      (route : Route) (k : Bytes)
      → let heads = route_heads std rt registry limiter now p hp route in
        Serves std rt registry limiter now p hp k × (count k heads ≡ count k route.egress)
        ⊎ (¬ Serves std rt registry limiter now p hp k) × (count k heads ≡ 0)
  unfolding route_heads
  count-route_heads route k = elim (Bool-cases (is_eligible std rt registry limiter now p hp k)) [
    | inl e ↦ inl (
      is_eligible-Serves std rt registry limiter now p hp k e,
      count-heads_of route.egress k ∙ (rw e refl),
    )
    | inr e ↦ inr (
      λ s. let f = Serves-is_eligible std rt registry limiter now p hp k s in cc,
      count-heads_of route.egress k ∙ (rw e refl),
    )
  ]
