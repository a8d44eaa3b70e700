-- ===== src/Routing/Weighted.antt =====
-- One smooth selection in an int's range: whom it picks, and what it does to the current weights. Outside that
-- range it still picks a member.
use ocfp.Prelude.{
  ◌^◌, ◌-◌, ◌≡◌, refl, sym, ap, ◌∙◌, ◌⊎◌, inl, inr, true, false, Option, none, some, List, [], ◌∷◌,
  Bytes, ◌==◌, eq→≡, eq_refl, subst, arith, if◌then◌else◌, Bool-cases,
}
use ocfp.Prelude.Int.{
  wrap64, wrap64_exact, InRange, negsuc, ℤ, pos, ltb_ℤ, ◌+ℤ◌, ◌-ℤ◌, ◌≤ℤ◌, int_laws,
}
use ocfp.Prelude.GoMap
use ocfp.Prelude.GoMap.{Map, get-put}
use ocfp.Config.Validate.{contains}
use ocfp.Config.Validate.Sets.{All, Distinct}
use ocfp.Routing.{Candidate, current, poll, better, charge, select}
use ocfp.Routing.Exact.{
  exact_poll, ids, weight_in, weight_sum, current-put, absent-All, exact_poll-current,
  exact_poll-total, charged,
}
use ocfp.Routing.Best.{exact_poll_lem}

-- What a selection from the pool `p` must return: a member of it, whose running total, its current
-- weight and its own, no other member's exceeds, and current weights to which each member's weight
-- is added and from which, at the one picked, the sum of all weights is taken.
abbrev pub Selects : Map ℤ → List Candidate → Map ℤ × Bytes → Type 0
Selects cw p (cw', b) =
    (contains (ids p) b ≡ true)
    × All (λ d. current cw d.id +ℤ d.w ≤ℤ current cw b +ℤ weight_in b p) p
    × ((k : Bytes)
        → current cw' k ≡ current cw k +ℤ weight_in k p -ℤ (if b == k then weight_sum p else pos 0))

abbrev pub IsPositive : Candidate → Type 0
IsPositive c = pos 1 ≤ℤ c.w

-- -2^62 <= n < 2^62
abbrev pub IsModerate : ℤ → Type 0
IsModerate n = (negsuc (2 ^ 62 - 1) ≤ℤ n) × (n ≤ℤ pos (2 ^ 62 - 1))

-- The pool's weights are positive and add up to less than 2^62, and each member's current weight is at least
-- -2^62 and less than 2^62.
pub record HasRoom (cw : Map ℤ) (pool : List Candidate) : Type 0 where
  pub weights : All IsPositive pool
  pub sum : weight_sum pool ≤ℤ pos (2 ^ 62 - 1)
  pub currents : All (λ c. IsModerate (current cw c.id)) pool

pub weight_sum_nonneg : (pool : List Candidate) → All IsPositive pool → pos 0 ≤ℤ weight_sum pool
weight_sum_nonneg [] w = omega arith
weight_sum_nonneg (c ∷ pool) w = omega (int_laws, weight_sum_nonneg pool w.1)

others-IsModerate :
    (cw : Map ℤ) (k : Bytes) (v : ℤ) (pool : List Candidate)
    → All (λ c. k == c.id ≡ false) pool
    → All (λ c. IsModerate (current cw c.id)) pool
    → All (λ c. IsModerate (current (GoMap.put k v cw) c.id)) pool
others-IsModerate cw k v [] n a = tt
others-IsModerate cw k v (c ∷ pool) n a = (
  let same : current (GoMap.put k v cw) c.id ≡ current cw c.id =
        ground (arith, current-put k c.id v cw, n.0) in
      rw same a.0,
  others-IsModerate cw k v pool n.1 a.1,
)

poll-exact_poll :
    (cw : Map ℤ) (total : ℤ) (best : Option (Bytes × ℤ)) (pool : List Candidate)
    → Distinct (ids pool)
    → All IsPositive pool
    → pos 0 ≤ℤ total
    → total +ℤ weight_sum pool ≤ℤ pos (2 ^ 62 - 1)
    → All (λ c. IsModerate (current cw c.id)) pool
    → poll cw total best pool ≡ exact_poll cw total best pool
unfolding poll exact_poll
poll-exact_poll cw total best [] d w low sum m = refl
poll-exact_poll cw total best (c ∷ pool) d w low sum m =
    let rest : pos 0 ≤ℤ weight_sum pool = weight_sum_nonneg pool w.1 in
    let own : wrap64 (current cw c.id +ℤ c.w) ≡ current cw c.id +ℤ c.w =
      wrap64_exact (current cw c.id +ℤ c.w) (omega int_laws, omega int_laws) in
    let all : wrap64 (total +ℤ c.w) ≡ total +ℤ c.w =
      wrap64_exact (total +ℤ c.w) (omega int_laws, omega int_laws) in
    rw (own, all)
      (poll-exact_poll (GoMap.put c.id (current cw c.id +ℤ c.w) cw) (total +ℤ c.w) _ pool d.1 w.1
        (omega int_laws) (omega int_laws)
        (others-IsModerate cw c.id (current cw c.id +ℤ c.w) pool (absent-All c.id pool d.0) m.1))

-- what holds of the id of every member holds of an id among them
pub All_ids {κ} :
    (P : Bytes → Type κ) (pool : List Candidate) (k : Bytes)
    → All (λ (c : Candidate). P c.id) pool
    → contains (ids pool) k ≡ true
    → P k
unfolding contains
All_ids P [] k a m = cc
All_ids P (c ∷ pool) k a m = elim (Bool-cases (c.id == k)) [
  | inl e ↦ subst P (eq→≡ c.id k e) a.0
  | inr e ↦ All_ids P pool k a.1 (rw e at m)
]

weight_in_bounds :
    (k : Bytes) (pool : List Candidate)
    → All IsPositive pool
    → (pos 0 ≤ℤ weight_in k pool) × (weight_in k pool ≤ℤ weight_sum pool)
weight_in_bounds k [] w = (omega arith, omega arith)
weight_in_bounds k (c ∷ pool) w =
    let (low, high) = weight_in_bounds k pool w.1 in
    elim (Bool-cases (c.id == k)) [
      | inl e ↦ rw e (omega int_laws, omega int_laws)
      | inr e ↦ rw e (low, omega int_laws)
    ]

charge-exact :
    (t : Map ℤ × ℤ × Option (Bytes × ℤ)) (b : Bytes) (bv : ℤ)
    → t.2 ≡ some (b, bv)
    → InRange (current t.0 b -ℤ t.1)
    → charge t ≡ (GoMap.put b (current t.0 b -ℤ t.1) t.0, b)
unfolding charge
charge-exact (cw, total, none) b bv e r = cc
charge-exact (cw, total, some (b', bv')) b bv e r =
    let p : b' ≡ b = cc in rw p (rw (wrap64_exact (current cw b -ℤ total) r) refl)

room_total :
    (cw : Map ℤ) (pool : List Candidate)
    → HasRoom cw pool
    → pos 0 +ℤ weight_sum pool ≤ℤ pos (2 ^ 62 - 1)
room_total cw pool room = omega (int_laws, room.sum)

-- what the pick's current weight is after the charge
room_charge :
    (cw : Map ℤ) (pool : List Candidate) (b : Bytes)
    → contains (ids pool) b ≡ true
    → HasRoom cw pool
    → let t = exact_poll cw (pos 0) none pool in InRange (current t.0 b -ℤ t.1)
room_charge cw pool b m room =
    let t = exact_poll cw (pos 0) none pool in
    let own : current t.0 b ≡ current cw b +ℤ weight_in b pool =
      exact_poll-current cw (pos 0) none pool b in
    let total : t.1 ≡ pos 0 +ℤ weight_sum pool = exact_poll-total cw (pos 0) none pool in
    let (low, high) = All_ids (λ k. IsModerate (current cw k)) pool b room.currents m in
    let (least, most) = weight_in_bounds b pool room.weights in
    rw (own, total) (omega (int_laws, room.sum), omega (int_laws, room.sum))

-- A selection from a pool that is not empty and has distinct ids, where the weights are positive and add
-- up to less than 2^62 and each member's current weight is at least -2^62 and less than 2^62, so that no
-- int wraps: it picks a member whose running total, its current weight and its own, no other member's
-- exceeds; it adds each member's weight to its current weight and takes the sum of all weights from the
-- one picked.
pub select-Selects :
    (cw : Map ℤ) (c : Candidate) (pool : List Candidate)
    → Distinct (ids (c ∷ pool))
    → HasRoom cw (c ∷ pool)
    → Selects cw (c ∷ pool) (select cw (c ∷ pool))
unfolding select
select-Selects cw c pool d room =
    let p = c ∷ pool in
    let t = exact_poll cw (pos 0) none p in
    let (b, bv, e, m, top) = exact_poll_lem cw c pool d in
    let same : poll cw (pos 0) none p ≡ t =
      poll-exact_poll cw (pos 0) none p d room.weights (omega arith) (room_total cw p room)
        room.currents in
    let range : InRange (current t.0 b -ℤ t.1) = room_charge cw p b m room in
    subst (Selects cw p) (sym (ap charge same ∙ charge-exact t b bv e range)) (
      m,
      top,
      λ k.
          charged cw t.0 b k (pos 0) t.1 p (exact_poll-current cw (pos 0) none p)
            (exact_poll-total cw (pos 0) none p),
    )

better-one_of :
    (b : Bytes) (bv : ℤ) (k : Bytes) (v : ℤ)
    → ((better (some (b, bv)) k v).0 ≡ b) ⊎ ((better (some (b, bv)) k v).0 ≡ k)
unfolding better
better-one_of b bv k v = elim (Bool-cases (ltb_ℤ bv v)) [
  | inl e ↦ inr (rw e refl)
  | inr e ↦ inl (rw e refl)
]

charge-pick :
    (t : Map ℤ × ℤ × Option (Bytes × ℤ)) (b : Bytes) (bv : ℤ)
    → t.2 ≡ some (b, bv)
    → (charge t).1 ≡ b
unfolding charge
charge-pick (cw, total, none) b bv e = cc
charge-pick (cw, total, some (b', bv')) b bv e = cc

-- The best of the loop is the one that it was given or a member, also where sums wrap.
poll-member :
    (cw : Map ℤ) (total : ℤ) (b : Bytes) (bv : ℤ) (pool : List Candidate)
    → (b' : Bytes) × (bv' : ℤ) × ((poll cw total (some (b, bv)) pool).2 ≡ some (b', bv'))
      × ((b' ≡ b) ⊎ (contains (ids pool) b' ≡ true))
unfolding poll contains
poll-member cw total b bv [] = (b, bv, refl, inl refl)
poll-member cw total b bv (c ∷ pool) =
    let cw' = GoMap.put c.id (wrap64 (current cw c.id +ℤ c.w)) cw in
    let next = better (some (b, bv)) c.id (current cw' c.id) in
    let (b', bv', e, from) = poll-member cw' (wrap64 (total +ℤ c.w)) next.0 next.1 pool in
    (
      b',
      bv',
      e,
      elim from [
        | inr m ↦ inr (ground arith)
        | inl s ↦ elim (better-one_of b bv c.id (current cw' c.id)) [
          | inl p ↦ inl (s ∙ p)
          | inr p ↦ inr (rw (s ∙ p, eq_refl) refl)
        ]
      ],
    )

-- A selection from a pool that is not empty picks a member, whatever its sums are.
pub select-member :
    (cw : Map ℤ) (c : Candidate) (pool : List Candidate)
    → contains (ids (c ∷ pool)) (select cw (c ∷ pool)).1 ≡ true
unfolding select poll better contains
select-member cw c pool =
    let cw' = GoMap.put c.id (wrap64 (current cw c.id +ℤ c.w)) cw in
    let (b, bv, e, from) = poll-member cw' (wrap64 (pos 0 +ℤ c.w)) c.id (current cw' c.id) pool in
    subst (λ (k : Bytes). contains (ids (c ∷ pool)) k ≡ true)
      (sym (
        charge-pick (poll cw' (wrap64 (pos 0 +ℤ c.w)) (some (c.id, current cw' c.id)) pool) b bv e))
      (elim from [ inl s ↦ rw (s, eq_refl) refl | inr m ↦ ground arith ])
