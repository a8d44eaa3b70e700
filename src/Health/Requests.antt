-- ===== src/Health/Requests.antt =====
-- Any number of requests on one registry. Each step is one call under the registry's mutex; a
-- request in flight is the list of keys that it pinned.
use ocfp.Prelude.{
  count, ℕ, zero, suc, ◌+◌, ◌<◌, ◌≡◌, refl, Bool, some, List, [], ◌∷◌, Bytes, arith, get_elem?,
}
use ocfp.Prelude.Int.{ℤ}
use ocfp.Prelude.GoMap
use ocfp.Health.{Registry, Policy, new_registry, pins, pin, release, reclaim, observe}
use ocfp.Health.Observing.{observe_frame}
use ocfp.Health.Pinning.{pins-pin, pins-release, reclaim_lem}

pub record World : Type 0 where
  pub registry : Registry
  pub requests : List (List Bytes)

abbrev pub remove_at {ℓ} : {A : Type ℓ} → ℕ → List A → List A
remove_at n [] = []
remove_at zero (x ∷ xs) = xs
remove_at (suc n) (x ∷ xs) = x ∷ remove_at n xs

-- how many pins the requests in flight hold on a key
abbrev pub held : Bytes → List (List Bytes) → ℕ
held j [] = 0
held j (ks ∷ rs) = count j ks + held j rs

pub data Step : World → World → Type 0 where
  arrive :
      (w : World) (ks : List Bytes)
      → Step w (record { registry = pin w.registry ks; requests = ks ∷ w.requests })
  finish :
      (w : World) (n : ℕ) (ks : List Bytes)
      → get_elem? w.requests n ≡ some ks
      → Step w (record { registry = release w.registry ks; requests = remove_at n w.requests })
  see :
      (w : World) (now armed_at : ℤ) (key : Bytes) (ok : Bool) (p : Policy)
      → Step w (record w { registry = observe w.registry now armed_at key ok p })
  sweep :
      (w : World) (active : List Bytes)
      → Step w (record w { registry = (reclaim w.registry active).0 })

pub data Reach (w : World) : World → Type 0 where
  here : Reach w w
  next : {v u : World} → Reach w v → Step v u → Reach w u

abbrev pub Counts : World → Type 0
Counts w = (j : Bytes) → pins w.registry j ≡ held j w.requests

held-remove_at :
    (j : Bytes) (n : ℕ) (rs : List (List Bytes)) {ks : List Bytes}
    → get_elem? rs n ≡ some ks
    → held j rs ≡ count j ks + held j (remove_at n rs)
held-remove_at j n [] h = cc
held-remove_at j zero (r ∷ rs) h = ground arith
held-remove_at j (suc n) (r ∷ rs) {ks} h = ground (arith, held-remove_at j n rs {ks = ks} h)

Step-Counts : {w v : World} → Step w v → Counts w → Counts v
Step-Counts (arrive w ks) c j = omega (arith, c j, pins-pin w.registry ks j)
Step-Counts (finish w n ks h) c j =
    omega (arith, c j, pins-release w.registry ks j, held-remove_at j n w.requests h)
Step-Counts (see w now armed_at key ok p) c j =
    ground (arith, c j, observe_frame w.registry now armed_at key j ok p)
Step-Counts (sweep w active) c j = ground (arith, c j, reclaim_lem w.registry active j)

Reach-Counts : {w v : World} → Counts w → Reach w v → Counts v
Reach-Counts c here = c
Reach-Counts c (next r s) = Step-Counts s (Reach-Counts c r)

abbrev pub idle_world : World
idle_world = record { registry = new_registry; requests = [] }

idle_world-Counts : Counts idle_world
unfolding pins GoMap.get
idle_world-Counts j = refl

-- After any interleaving of arrivals, ends, observations and reclamations, a key's pin count is the
-- number of pins that requests in flight hold on it, and no Reclaim, whatever is active, drops the
-- state of a key that a request in flight has pinned.
pub reclaim_spares_pinned :
    {w : World}
    → Reach idle_world w
    → (active : List Bytes) (j : Bytes)
    → (pins w.registry j ≡ held j w.requests)
      × (0 < held j w.requests
          → GoMap.get j (reclaim w.registry active).0.states ≡ GoMap.get j w.registry.states)
reclaim_spares_pinned {w} r active j =
    let c = Reach-Counts idle_world-Counts r j in
    (c, λ h. ground (arith, reclaim_lem w.registry active j))
