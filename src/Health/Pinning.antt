-- ===== src/Health/Pinning.antt =====
-- Pins and reclamation: what survives, and that pins are counted for any interleaving of requests.
use ocfp.Prelude.{
  count, ◌+◌, ◌-◌, ◌≡◌, refl, ◌||◌, none, List, [], ◌∷◌, Bytes, ◌==◌, eq_iff, arith, ltb,
  if◌then◌else◌, length,
}
use ocfp.Prelude.GoMap
use ocfp.Prelude.GoMap.{get-put, get-delete, get-retain, dropped-retain}
use ocfp.Config.Validate.{contains}
use ocfp.Health.{Registry, pins, pin, unpin, release, is_kept, reclaim}

pub pins-pin :
    (r : Registry) (ks : List Bytes) (j : Bytes) → pins (pin r ks) j ≡ pins r j + count j ks
unfolding pin pins
pins-pin r [] j = ground arith
pins-pin r (k ∷ ks) j = ground (
  arith,
  pins-pin (record r { refs = GoMap.put k (pins r k + 1) r.refs }) ks j,
  get-put k j (pins r k + 1) r.refs,
  eq_iff k j,
)

pins-unpin :
    (r : Registry) (k j : Bytes) → pins (unpin r k) j ≡ (if k == j then pins r j - 1 else pins r j)
unfolding unpin pins
pins-unpin r k j =
    ground (arith, get-put k j (pins r k - 1) r.refs, get-delete k j r.refs, eq_iff k j)

pub pins-release :
    (r : Registry) (ks : List Bytes) (j : Bytes) → pins (release r ks) j ≡ pins r j - count j ks
unfolding release
pins-release r [] j = ground arith
pins-release r (k ∷ ks) j = ground (arith, pins-release (unpin r k) ks j, pins-unpin r k j)

-- Pinning a request's keys and releasing them leaves every pin count as it was.
pub pins-release-pin :
    (r : Registry) (ks : List Bytes) (j : Bytes) → pins (release (pin r ks) ks) j ≡ pins r j
pins-release-pin r ks j = omega (arith, pins-release (pin r ks) ks j, pins-pin r ks j)

-- Reclaim keeps the state of an identity that is active or pinned, drops any other, leaves the pins
-- alone, and returns the number of entries that it dropped.
pub reclaim_lem :
    (r : Registry) (active : List Bytes) (j : Bytes)
    → (GoMap.get j (reclaim r active).0.states
        ≡ (if contains active j || ltb 0 (pins r j) then GoMap.get j r.states else none))
      × (pins (reclaim r active).0 j ≡ pins r j)
      × ((reclaim r active).1 + length (reclaim r active).0.states ≡ length r.states)
unfolding reclaim pins
reclaim_lem r active j =
    (get-retain (is_kept r active) j r.states, refl, dropped-retain (is_kept r active) r.states)
