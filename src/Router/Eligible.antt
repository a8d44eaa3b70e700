-- ===== src/Router/Eligible.antt =====
-- What makes an egress of a route eligible for a request, said of the configuration, the health states and
-- the counts of requests in flight.
use ocfp.Prelude.{
  suc, ap, ◌∙◌, subst, ◌≡◌, ◌≢◌, ◌⊎◌, inl, inr, refl, Bool, true, false, not, ◌||◌, ◌&&◌, Option,
  none, some, List, [], ◌∷◌, Bytes, arith, Bool-cases, Any,
}
use ocfp.Prelude.Int.{ℤ, pos, ltb_ℤ, ◌≤ℤ◌}
use ocfp.Prelude.GoMap
use ocfp.Config.Std.{Std}
use ocfp.Config.File.{Egress}
use ocfp.Config.Egress.{deref_or, health_key}
use ocfp.Config.Validate.{is_empty}
use ocfp.Config.Runtime.{Runtime, egress, glob_match}
use ocfp.Health.{Policy, State, Registry, healthy, state_of, state_or_fresh, is_before}
use ocfp.Routing.{Profile, model_allowed}
use ocfp.Upstream.Limiter.{Limiter, in_flight, is_unlimited, peek}
use ocfp.Router.{is_eligible_egress, is_eligible}

enabled_iff :
    (o : Option Bool)
    → (deref_or o true ≡ true → o ≢ some false) × (o ≢ some false → deref_or o true ≡ true)
enabled_iff none = (λ e h. cc, λ n. refl)
enabled_iff (some true) = (λ e h. cc, λ n. refl)
enabled_iff (some false) = (λ e h. cc, λ n. absurd (n refl))

streams_iff :
    (o : Option Bool) (s : Bool)
    → (deref_or o true || not s ≡ true → s ≡ true → o ≢ some false)
      × ((s ≡ true → o ≢ some false) → deref_or o true || not s ≡ true)
streams_iff none s = (λ e f h. cc, λ n. refl)
streams_iff (some true) s = (λ e f h. cc, λ n. refl)
streams_iff (some false) true = (λ e f h. cc, λ n. absurd (n refl refl))
streams_iff (some false) false = (λ e f h. cc, λ n. refl)

fits_iff :
    (m b : ℤ)
    → (not (ltb_ℤ (pos 0) m && ltb_ℤ m b) ≡ true → pos 1 ≤ℤ m → b ≤ℤ m)
      × ((pos 1 ≤ℤ m → b ≤ℤ m) → not (ltb_ℤ (pos 0) m && ltb_ℤ m b) ≡ true)
fits_iff m b = elim (Bool-cases (ltb_ℤ (pos 0) m)) [
  | inl e ↦ elim (Bool-cases (ltb_ℤ m b)) [
    | inl f ↦ (λ h p. ground arith, λ h. absurd (let q : b ≤ℤ m = h (ground arith) in ground arith))
    | inr f ↦ (λ h p. ground arith, λ h. rw (e, f) refl)
  ]
  | inr e ↦ (λ h p. absurd (ground arith), λ h. rw e refl)
]

module _ (std : Std) (model : Bytes) where
  matches_iff :
      (pats : List Bytes)
      → (model_allowed std pats model ≡ true
          → Any (λ (pat : Bytes). glob_match std pat model ≡ true) pats)
        × (Any (λ (pat : Bytes). glob_match std pat model ≡ true) pats
            → model_allowed std pats model ≡ true)
  unfolding model_allowed
  matches_iff [] = (λ e. absurd (cc), λ h. absurd h)
  matches_iff (pat ∷ pats) = elim (Bool-cases (glob_match std pat model)) [
    | inl e ↦ (λ f. inl e, λ h. rw e refl)
    | inr e ↦ (
      λ f. inr ((matches_iff pats).0 (rw e at f)),
      λ h. elim h [ inl x ↦ absurd (cc) | inr y ↦ rw e ((matches_iff pats).1 y) ],
    )
  ]

free_iff :
    (l : Limiter) (id : Bytes) (m : ℤ)
    → (peek l id m ≡ true → pos 1 ≤ℤ m → pos (suc (in_flight l id)) ≤ℤ m)
      × ((pos 1 ≤ℤ m → pos (suc (in_flight l id)) ≤ℤ m) → peek l id m ≡ true)
unfolding peek is_unlimited
free_iff l id m = elim (Bool-cases (ltb_ℤ (pos 0) m)) [
  | inl e ↦ (
    λ h p. ground arith,
    λ h. let q : pos (suc (in_flight l id)) ≤ℤ m = h (ground arith) in ground arith,
  )
  | inr e ↦ (λ h p. absurd (ground arith), λ h. rw e refl)
]

before_iff :
    (now : ℤ) (o : Option ℤ)
    → (not (is_before now o) ≡ true → (u : ℤ) → o ≡ some u → u ≤ℤ now)
      × (((u : ℤ) → o ≡ some u → u ≤ℤ now) → not (is_before now o) ≡ true)
before_iff now none = (λ e u g. absurd (cc), λ h. refl)
before_iff now (some v) = (
  λ e u g. let same : v ≡ u = cc in subst (λ (x : ℤ). x ≤ℤ now) same (ground arith),
  λ h. let q : v ≤ℤ now = h v refl in ground arith,
)

not_before_iff :
    (now : ℤ) (o : Option State)
    → (not (is_before now (state_or_fresh o).until) ≡ true
        → (st : State) (u : ℤ) → o ≡ some st
        → st.until ≡ some u
        → u ≤ℤ now)
      × (((st : State) (u : ℤ) → o ≡ some st → st.until ≡ some u → u ≤ℤ now)
          → not (is_before now (state_or_fresh o).until) ≡ true)
not_before_iff now none = (λ e st u f g. cc, λ h. refl)
not_before_iff now (some s) = (
  λ e st u f g.
      let same : s ≡ st = cc in
      (before_iff now s.until).0 e u (ap (λ (x : State). x.until) same ∙ g),
  λ h. (before_iff now s.until).1 (λ u g. h s u refl g),
)

healthy_iff :
    (r : Registry) (now : ℤ) (key : Bytes) (hp : Policy)
    → (healthy r now key hp ≡ true
        → hp.enabled ≡ true
        → (st : State) (u : ℤ) → GoMap.get key r.states ≡ some st
        → st.until ≡ some u
        → u ≤ℤ now)
      × ((hp.enabled ≡ true
            → (st : State) (u : ℤ) → GoMap.get key r.states ≡ some st
            → st.until ≡ some u
            → u ≤ℤ now)
          → healthy r now key hp ≡ true)
unfolding healthy state_of
healthy_iff r now key hp = elim (Bool-cases hp.enabled) [
  | inl e ↦ (
    λ h d. (not_before_iff now (GoMap.get key r.states)).0 (rw e at h),
    λ h. rw e ((not_before_iff now (GoMap.get key r.states)).1 (h e)),
  )
  | inr e ↦ (λ h d. cc, λ h. rw e refl)
]

all_six :
    (a b c d e f : Bool)
    → a && b && c && d && e && f ≡ true
    → (a ≡ true) × (b ≡ true) × (c ≡ true) × (d ≡ true) × (e ≡ true) × (f ≡ true)
all_six true true true true true true h = (refl, refl, refl, refl, refl, refl)
all_six a b c d e f h = ground arith

module _ (std : Std) (rt : Runtime) (registry : Registry) (limiter : Limiter) (now : ℤ)
    (p : Profile) (hp : Policy) where
  -- The snapshot knows the egress, and it is not switched off; a streaming request needs one that is not
  -- switched to whole replies; it names no models or a pattern that the model matches; its bound on the body,
  -- if it has one, is not exceeded; under an enabled policy its cooldown, if there is one, is over; and its
  -- cap on the requests in flight, if it has one, leaves a slot.
  pub record Serves (k : Bytes) : Type 0 where
    pub e : Egress
    pub found : egress rt k ≡ some e
    pub enabled : e.enabled ≢ some false
    pub streams : p.streaming ≡ true → e.streaming ≢ some false
    pub matches :
        (e.models ≡ []) ⊎ Any (λ (pat : Bytes). glob_match std pat p.model ≡ true) e.models
    pub fits : pos 1 ≤ℤ e.max_body_bytes → p.body_bytes ≤ℤ e.max_body_bytes
    pub cooled :
        hp.enabled ≡ true
        → (st : State) (u : ℤ) → GoMap.get (health_key e) registry.states ≡ some st
        → st.until ≡ some u
        → u ≤ℤ now
    pub free : pos 1 ≤ℤ e.max_concurrency → pos (suc (in_flight limiter k)) ≤ℤ e.max_concurrency

  models_iff :
      (ms : List Bytes)
      → (is_empty ms || model_allowed std ms p.model ≡ true
          → (ms ≡ []) ⊎ Any (λ (pat : Bytes). glob_match std pat p.model ≡ true) ms)
        × ((ms ≡ []) ⊎ Any (λ (pat : Bytes). glob_match std pat p.model ≡ true) ms
            → is_empty ms || model_allowed std ms p.model ≡ true)
  models_iff [] = (λ h. inl refl, λ h. refl)
  models_iff (m ∷ ms) = (
    λ h. inr ((matches_iff std p.model (m ∷ ms)).0 h),
    λ h. elim h [ inl x ↦ absurd (cc) | inr y ↦ (matches_iff std p.model (m ∷ ms)).1 y ],
  )

  Serves-of :
      (k : Bytes) (o : Option Egress)
      → egress rt k ≡ o
      → is_eligible_egress std rt registry limiter now p hp k o ≡ true
      → Serves k
  unfolding is_eligible_egress
  Serves-of k none f h = cc
  Serves-of k (some e) f h =
      let (h1, h2, h3, h4, h5, h6) = all_six _ _ _ _ _ _ h in
      record {
        e = e;
        found = f;
        enabled = (enabled_iff e.enabled).0 h1;
        streams = (streams_iff e.streaming p.streaming).0 h2;
        matches = (models_iff e.models).0 h3;
        fits = (fits_iff e.max_body_bytes p.body_bytes).0 h4;
        cooled = (healthy_iff registry now (health_key e) hp).0 h5;
        free = (free_iff limiter k e.max_concurrency).0 h6;
      }

  pub is_eligible-Serves :
      (k : Bytes) → is_eligible std rt registry limiter now p hp k ≡ true → Serves k
  unfolding is_eligible
  is_eligible-Serves k h = Serves-of k (egress rt k) refl h

  pub Serves-is_eligible :
      (k : Bytes) → Serves k → is_eligible std rt registry limiter now p hp k ≡ true
  unfolding is_eligible is_eligible_egress
  Serves-is_eligible k s =
      rw
        (
          s.found,
          (enabled_iff s.e.enabled).1 s.enabled,
          (streams_iff s.e.streaming p.streaming).1 s.streams,
          (models_iff s.e.models).1 s.matches,
          (fits_iff s.e.max_body_bytes p.body_bytes).1 s.fits,
          (healthy_iff registry now (health_key s.e) hp).1 s.cooled,
          (free_iff limiter k s.e.max_concurrency).1 s.free,
        )
        refl
