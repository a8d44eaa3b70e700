-- ===== src/Upstream/Limiter/Holders.antt =====
-- Any number of requests on one gate: each step is one call under the limiter's mutex, and the
-- requests that hold a slot are a list of egress ids.
use ocfp.Prelude.{
  count, ◌+◌, ◌-◌, ◌<◌, ◌≡◌, false, List, [], ◌∷◌, Bytes, ◌==◌, eq_iff, arith, if◌then◌else◌,
}
use ocfp.Prelude.Int.{ℤ, pos, ◌≤ℤ◌}
use ocfp.Prelude.GoMap
use ocfp.Upstream.Limiter.{
  Limiter, new_limiter, in_flight, is_unlimited, acquire, release, in_flight-set_count,
  in_flight-release,
}

pub record Gate : Type 0 where
  pub limiter : Limiter
  pub holders : List Bytes

abbrev pub remove_first : Bytes → List Bytes → List Bytes
remove_first k [] = []
remove_first k (h ∷ hs) = let rest = remove_first k hs in if h == k then hs else h ∷ rest

abbrev pub entered : (Bytes → ℤ) → Gate → Bytes → Gate
entered caps g id = record {
  limiter = (acquire g.limiter id (caps id)).0;
  holders = if (acquire g.limiter id (caps id)).1 then id ∷ g.holders else g.holders;
}

abbrev pub left : Gate → Bytes → Gate
left g id = record { limiter = release g.limiter id; holders = remove_first id g.holders }

module _ (caps : Bytes → ℤ) where
  -- A request asks for a slot, or one that holds a slot gives it back.
  pub data Step : Gate → Gate → Type 0 where
    enter : (g : Gate) (id : Bytes) → Step g (entered caps g id)
    leave : (g : Gate) (id : Bytes) → 0 < count id g.holders → Step g (left g id)

  pub data Reach (g : Gate) : Gate → Type 0 where
    here : Reach g g
    next : {h k : Gate} → Reach g h → Step h k → Reach g k

  -- The count of an id is the number of its holders, and at most its cap.
  abbrev pub Counts : Gate → Type 0
  Counts g =
      (k : Bytes)
      → (in_flight g.limiter k ≡ (if is_unlimited (caps k) then 0 else count k g.holders))
        × (is_unlimited (caps k) ≡ false → pos (count k g.holders) ≤ℤ caps k)

  count-remove_first :
      (k id : Bytes) (hs : List Bytes)
      → 0 < count id hs
      → count k (remove_first id hs) ≡ (if id == k then count k hs - 1 else count k hs)
  count-remove_first k id [] h = absurd (omega arith)
  count-remove_first k id (x ∷ hs) h =
      ground (arith, count-remove_first k id hs, eq_iff x id, eq_iff x k, eq_iff id k)

  enter-Counts : (g : Gate) (id : Bytes) → Counts g → Counts (entered caps g id)
  unfolding acquire
  enter-Counts g id c k =
      ground
        (arith, c k, in_flight-set_count g.limiter id k (in_flight g.limiter id + 1), eq_iff id k)

  leave-Counts : (g : Gate) (id : Bytes) → 0 < count id g.holders → Counts g → Counts (left g id)
  leave-Counts g id h c k =
      ground (arith, c k, in_flight-release g.limiter id k, count-remove_first k id g.holders h)

  Step-Counts : {g h : Gate} → Step g h → Counts g → Counts h
  Step-Counts (enter g id) c = enter-Counts g id c
  Step-Counts (leave g id h) c = leave-Counts g id h c

  Reach-Counts : {g h : Gate} → Counts g → Reach g h → Counts h
  Reach-Counts c here = c
  Reach-Counts c (next r s) = Step-Counts s (Reach-Counts c r)

abbrev pub empty_gate : Gate
empty_gate = record { limiter = new_limiter; holders = [] }

empty_gate-Counts : (caps : Bytes → ℤ) → Counts caps empty_gate
unfolding in_flight GoMap.get
empty_gate-Counts caps k = ground arith

-- From an empty gate, under caps that do not change, whatever requests ask for slots and whichever
-- holders give theirs back in whatever order, the count of an id with a cap is the number of its
-- holders and at most the cap, and an id without a cap is not counted.
pub gate_counts :
    (caps : Bytes → ℤ) {g : Gate}
    → Reach caps empty_gate g
    → (k : Bytes)
    → (in_flight g.limiter k ≡ (if is_unlimited (caps k) then 0 else count k g.holders))
      × (is_unlimited (caps k) ≡ false → pos (count k g.holders) ≤ℤ caps k)
gate_counts caps r = Reach-Counts caps (empty_gate-Counts caps) r
