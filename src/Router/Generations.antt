-- ===== src/Router/Generations.antt =====
-- Maintenance: what a generation's first request drops, and what it cannot.
use ocfp.Prelude.{
  map, refl, ◌⊎◌, inl, inr, ap, ◌∙◌, subst, ℕ, ◌≤◌, ◌<◌, ◌≡◌, ◌||◌, Bool, true, false, Option, none,
  some, List, [], ◌∷◌, ◌++◌, Bytes, ◌==◌, eq→≡, eq_refl, arith, ltb, if◌then◌else◌, Any,
}
use ocfp.Prelude.GoMap
use ocfp.Prelude.GoMap.{Map, get-retain}
use ocfp.Config.File.{Egress, Route}
use ocfp.Config.Egress.{transport_signature, health_key}
use ocfp.Config.Validate.{contains}
use ocfp.Config.Runtime.{Runtime, egress}
use ocfp.Health.{pins, egress_keys, route_keys, active_keys}
use ocfp.Health.Pinning.{reclaim_lem}
use ocfp.Routing.Lifecycle.{prune_routes_lem}
use ocfp.Router.{Server, egress_signatures, route_signatures, route_ids, on_generation}

-- The snapshot knows an egress under the id, and `name` calls it k.
unfoldable pub Names : Runtime → (Egress → Bytes) → Bytes → Bytes → Type 0
Names rt name k id = (e : Egress) × (egress rt id ≡ some e) × (name e ≡ k)

-- Some route of the list lists an egress of the snapshot that `name` calls k.
unfoldable pub UsedBy : Runtime → (Egress → Bytes) → Bytes → List Route → Type 0
UsedBy rt name k routes = Any (λ (r : Route). Any (Names rt name k) r.egress) routes

abbrev pub Uses : Runtime → (Egress → Bytes) → Bytes → Type 0
Uses rt name k = UsedBy rt name k rt.routes

-- Some route of the snapshot has the id k.
abbrev pub HasRoute : Runtime → Bytes → Type 0
HasRoute rt k = Any (λ (r : Route). r.id ≡ k) rt.routes

-- The test says whether the proposition holds.
abbrev Decides : Bool → Type 0 → Type 0
Decides b P = (b ≡ true → P) × (P → b ≡ true)

contains-append :
    (xs ys : List Bytes) (k : Bytes) → contains (xs ++ ys) k ≡ (contains xs k || contains ys k)
unfolding contains
contains-append [] ys k = refl
contains-append (x ∷ xs) ys k = ground (arith, contains-append xs ys k)

or-Decides : (a b : Bool) (P Q : Type 0) → Decides a P → Decides b Q → Decides (a || b) (P ⊎ Q)
or-Decides true b P Q p q = (λ e. inl (p.0 refl), λ h. refl)
or-Decides false b P Q p q = (
  λ e. inr (q.0 e),
  λ h. elim h [ inl x ↦ absurd (let e : false ≡ true = p.1 x in cc) | inr y ↦ q.1 y ],
)

eq-Decides : (j k : Bytes) → Decides (j == k) (j ≡ k)
eq-Decides j k = (λ e. eq→≡ j k e, λ e. subst (λ (x : Bytes). j == x ≡ true) e (eq_refl j))

-- one egress of a route, met by a loop that collects the names
collected : (Egress → Bytes) → Option Egress → List Bytes → List Bytes
collected name none rest = rest
collected name (some e) rest = name e ∷ rest

module _ (rt : Runtime) (name : Egress → Bytes) (k : Bytes) where
  collected-Decides :
      (id : Bytes) (o : Option Egress) (rest : List Bytes) (Q : Type 0)
      → egress rt id ≡ o
      → Decides (contains rest k) Q
      → Decides (contains (collected name o rest) k) (Names rt name k id ⊎ Q)
  unfolding collected Names contains
  collected-Decides id none rest Q h d =
      (λ e. inr (d.0 e), λ p. elim p [ inl (e, f, g) ↦ absurd (cc) | inr y ↦ d.1 y ])
  collected-Decides id (some e) rest Q h d =
      or-Decides (name e == k) (contains rest k) (Names rt name k id) Q
        (
          λ f. (e, h, eq→≡ (name e) k f),
          λ (e', h', g). (eq-Decides (name e) k).1 (let same : e ≡ e' = cc in ap name same ∙ g),
        )
        d

egress_signatures-collected :
    (o : Option Egress) (rest : List Bytes)
    → (elim o [ none ↦ rest | some e ↦ transport_signature e ∷ rest ])
      ≡ collected transport_signature o rest
unfolding collected
egress_signatures-collected none rest = refl
egress_signatures-collected (some e) rest = refl

egress_keys-collected :
    (o : Option Egress) (rest : List Bytes)
    → (elim o [ none ↦ rest | some e ↦ health_key e ∷ rest ]) ≡ collected health_key o rest
unfolding collected
egress_keys-collected none rest = refl
egress_keys-collected (some e) rest = refl

-- what a loop that collects over the listed egresses leaves
IsCollector : Runtime → (Egress → Bytes) → (List Bytes → List Bytes) → Type 0
IsCollector rt name f =
    (f [] ≡ [])
    × ((id : Bytes) (ids : List Bytes) → f (id ∷ ids) ≡ collected name (egress rt id) (f ids))

collector-Decides :
    (rt : Runtime) (name : Egress → Bytes) (k : Bytes) (f : List Bytes → List Bytes)
    → IsCollector rt name f
    → (ids : List Bytes) → Decides (contains (f ids) k) (Any (Names rt name k) ids)
unfolding contains IsCollector
collector-Decides rt name k f (h, step) [] = rw h (λ e. absurd (cc), λ x. absurd x)
collector-Decides rt name k f (h, step) (id ∷ ids) = rw (step id ids) (
    collected-Decides rt name k id (egress rt id) (f ids) (Any (Names rt name k) ids) refl
      (collector-Decides rt name k f (h, step) ids))

routes-Decides :
    (rt : Runtime) (name : Egress → Bytes) (k : Bytes) (f : List Bytes → List Bytes)
    (g : List Route → List Bytes)
    → IsCollector rt name f
    → g [] ≡ []
    → ((r : Route) (rs : List Route) → g (r ∷ rs) ≡ f r.egress ++ g rs)
    → (routes : List Route) → Decides (contains (g routes) k) (UsedBy rt name k routes)
unfolding contains UsedBy
routes-Decides rt name k f g c h step [] = rw h (λ e. absurd (cc), λ x. absurd x)
routes-Decides rt name k f g c h step (r ∷ rs) =
    rw (step r rs, contains-append (f r.egress) (g rs) k)
      (or-Decides (contains (f r.egress) k) (contains (g rs) k) (Any (Names rt name k) r.egress)
        (UsedBy rt name k rs) (collector-Decides rt name k f c r.egress)
        (routes-Decides rt name k f g c h step rs))

-- The signatures that are kept are those of the egresses that some route lists.
route_signatures-Decides :
    (rt : Runtime) (k : Bytes)
    → Decides (contains (route_signatures rt rt.routes) k) (Uses rt transport_signature k)
unfolding route_signatures egress_signatures IsCollector
route_signatures-Decides rt k =
    routes-Decides rt transport_signature k (egress_signatures rt) (route_signatures rt)
      (refl, λ id ids. egress_signatures-collected (egress rt id) (egress_signatures rt ids)) refl
      (λ r rs. refl) rt.routes

active_keys-Decides :
    (rt : Runtime) (k : Bytes) → Decides (contains (active_keys rt) k) (Uses rt health_key k)
unfolding active_keys route_keys egress_keys IsCollector
active_keys-Decides rt k =
    routes-Decides rt health_key k (egress_keys rt) (route_keys rt)
      (refl, λ id ids. egress_keys-collected (egress rt id) (egress_keys rt ids)) refl
      (λ r rs. refl) rt.routes

ids-Decides :
    (k : Bytes) (routes : List Route)
    → Decides (contains (map (λ r. r.id) routes) k) (Any (λ (r : Route). r.id ≡ k) routes)
unfolding contains
ids-Decides k [] = (λ e. absurd (cc), λ x. absurd x)
ids-Decides k (r ∷ rs) =
    or-Decides (r.id == k) (contains (map (λ x. x.id) rs) k) (r.id ≡ k)
      (Any (λ (x : Route). x.id ≡ k) rs) (eq-Decides r.id k) (ids-Decides k rs)

pins-Decides : (n : ℕ) → Decides (ltb 0 n) (0 < n)
pins-Decides n = (λ e. ground arith, λ h. ground arith)

-- The entry under k stays as it is if P, and is gone otherwise.
abbrev pub KeptIf {ℓ} : {V : Type ℓ} → Type 0 → Bytes → Map V → Map V → Type ℓ
KeptIf P k m m' = (P → GoMap.get k m' ≡ GoMap.get k m) × (¬ P → GoMap.get k m' ≡ none)

kept_if {ℓ} :
    {V : Type ℓ} (b : Bool) (P : Type 0) (k : Bytes) (m m' : Map V)
    → Decides b P
    → GoMap.get k m' ≡ (if b then GoMap.get k m else none)
    → KeptIf P k m m'
kept_if true P k m m' d h = (λ p. h, λ n. absurd (n (d.0 refl)))
kept_if false P k m m' d h = (λ p. absurd (let e : false ≡ true = d.1 p in cc), λ n. h)

on_generation_stale :
    {C : Type 0} (s : Server C) (rt : Runtime)
    → rt.generation ≤ s.pruned_generation
    → on_generation s rt ≡ s
unfolding on_generation
on_generation_stale s rt h = ground arith

on_generation_newer :
    {C : Type 0} (s : Server C) (rt : Runtime) (k : Bytes)
    → s.pruned_generation < rt.generation
    → let s' = on_generation s rt in
      (GoMap.get k s'.clients
        ≡ (if contains (route_signatures rt rt.routes) k then GoMap.get k s.clients else none))
      × (GoMap.get k s'.registry.states ≡ (
          if contains (active_keys rt) k || ltb 0 (pins s.registry k)
          then GoMap.get k s.registry.states
          else none))
      × (GoMap.get k s'.scheduler
          ≡ (if contains (route_ids rt) k then GoMap.get k s.scheduler else none))
      × (s'.pruned_generation ≡ rt.generation)
unfolding on_generation
on_generation_newer s rt k h = ground (
  arith,
  get-retain (contains (route_signatures rt rt.routes)) k s.clients,
  reclaim_lem s.registry (active_keys rt) k,
  prune_routes_lem s.scheduler (route_ids rt) k,
)

-- A snapshot of a generation that is not above the last one serviced changes nothing. Under a newer
-- one, a transport stays as it is exactly if some route lists an egress of the snapshot with that
-- signature, a health state exactly if some route lists an egress with that key or a request has
-- pinned it, a rotation state exactly if a route has that id, and that generation is the last one
-- serviced.
pub on_generation_lem :
    {C : Type 0} (s : Server C) (rt : Runtime) (k : Bytes)
    → (rt.generation ≤ s.pruned_generation → on_generation s rt ≡ s)
      × (s.pruned_generation < rt.generation
          → let s' = on_generation s rt in
            KeptIf (Uses rt transport_signature k) k s.clients s'.clients
            × KeptIf
                (Uses rt health_key k ⊎ (0 < pins s.registry k))
                k
                s.registry.states
                s'.registry.states
            × KeptIf (HasRoute rt k) k s.scheduler s'.scheduler
            × (s'.pruned_generation ≡ rt.generation))
on_generation_lem s rt k = (
  λ h. (on_generation_stale s rt h),
  λ h.
      let (c, r, q, g) = on_generation_newer s rt k h in
      (
        kept_if _ _ k s.clients (on_generation s rt).clients (route_signatures-Decides rt k) c,
        kept_if _ _ k s.registry.states (on_generation s rt).registry.states
            (or-Decides (contains (active_keys rt) k) (ltb 0 (pins s.registry k)) _ _
              (active_keys-Decides rt k) (pins-Decides (pins s.registry k)))
            r,
        kept_if _ _ k s.scheduler (on_generation s rt).scheduler (ids-Decides k rt.routes) q,
        g,
      ),
)
