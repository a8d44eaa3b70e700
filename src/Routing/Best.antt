-- ===== src/Routing/Best.antt =====
-- Whom the loop of a selection in exact integers ends with: no member has a greater running total.
use ocfp.Prelude.{
  ◌≡◌, refl, sym, ap, ◌∙◌, ◌⊎◌, inl, inr, true, false, none, some, List, [], ◌∷◌, Bytes, ◌==◌,
  eq_refl, subst, arith, Bool-cases,
}
use ocfp.Prelude.Int.{ℤ, pos, ltb_ℤ, ◌+ℤ◌, ◌≤ℤ◌, int_laws}
use ocfp.Prelude.GoMap
use ocfp.Prelude.GoMap.{Map, get-put}
use ocfp.Config.Validate.{contains}
use ocfp.Config.Validate.Sets.{All, Distinct}
use ocfp.Routing.{Candidate, current, better}
use ocfp.Routing.Exact.{
  exact_poll, ids, weight_in, current-put, not_same, absent-All, absent-weight_in,
}

-- What a run of the loop with a best so far ends with.
abbrev Best : Map ℤ → List Candidate → Bytes → ℤ → Bytes → ℤ → Type 0
Best cw pool b bv b' bv' =
    (bv ≤ℤ bv')
    × All (λ c. current cw c.id +ℤ c.w ≤ℤ bv') pool
    × ((b' ≡ b) × (bv' ≡ bv)
        ⊎ (contains (ids pool) b' ≡ true) × (bv' ≡ current cw b' +ℤ weight_in b' pool))

-- the next best after a candidate whose running total is v
abbrev Next : Bytes → ℤ → Bytes → ℤ → Bytes → ℤ → Type 0
Next b bv k v nb nv = (bv ≤ℤ nv) × (v ≤ℤ nv) × ((nb ≡ b) × (nv ≡ bv) ⊎ (nb ≡ k) × (nv ≡ v))

better-Next :
    (b : Bytes) (bv : ℤ) (k : Bytes) (v : ℤ)
    → Next b bv k v (better (some (b, bv)) k v).0 (better (some (b, bv)) k v).1
unfolding better
better-Next b bv k v = elim (Bool-cases (ltb_ℤ bv v)) [
  | inl e ↦ rw e (ground arith, omega arith, inr (refl, refl))
  | inr e ↦ rw e (omega arith, ground arith, inl (refl, refl))
]

other_totals :
    (cw : Map ℤ) (k : Bytes) (v m : ℤ) (pool : List Candidate)
    → All (λ c. k == c.id ≡ false) pool
    → All (λ c. current (GoMap.put k v cw) c.id +ℤ c.w ≤ℤ m) pool
    → All (λ c. current cw c.id +ℤ c.w ≤ℤ m) pool
other_totals cw k v m [] n a = tt
other_totals cw k v m (c ∷ pool) n a = (
  let same : current (GoMap.put k v cw) c.id ≡ current cw c.id =
        ground (arith, current-put k c.id v cw, n.0) in
      rw (← same) a.0,
  other_totals cw k v m pool n.1 a.1,
)

Best-from :
    (cw : Map ℤ) (c : Candidate) (pool : List Candidate) (b' : Bytes) (bv' : ℤ)
    → contains (ids pool) c.id ≡ false
    → contains (ids pool) b' ≡ true
    → bv' ≡ current (GoMap.put c.id (current cw c.id +ℤ c.w) cw) b' +ℤ weight_in b' pool
    → (contains (ids (c ∷ pool)) b' ≡ true) × (bv' ≡ current cw b' +ℤ weight_in b' (c ∷ pool))
unfolding contains
Best-from cw c pool b' bv' d m e =
    let other : c.id == b' ≡ false = not_same c.id b' (ids pool) d m in
    (rw (other, m), e ∙ (rw (current-put, other) refl))

Best-here :
    (cw : Map ℤ) (c : Candidate) (pool : List Candidate)
    → contains (ids pool) c.id ≡ false
    → (contains (ids (c ∷ pool)) c.id ≡ true)
      × (current cw c.id +ℤ c.w ≡ current cw c.id +ℤ weight_in c.id (c ∷ pool))
unfolding contains
Best-here cw c pool d = (
  rw eq_refl refl,
  rw (eq_refl, absent-weight_in c.id pool d) (ap (λ t. current cw c.id +ℤ t) (omega int_laws)),
)

Best-step :
    (cw : Map ℤ) (c : Candidate) (pool : List Candidate) (b : Bytes) (bv : ℤ) (nb : Bytes) (nv : ℤ)
    (b' : Bytes) (bv' : ℤ)
    → contains (ids pool) c.id ≡ false
    → Next b bv c.id (current cw c.id +ℤ c.w) nb nv
    → Best (GoMap.put c.id (current cw c.id +ℤ c.w) cw) pool nb nv b' bv'
    → Best cw (c ∷ pool) b bv b' bv'
Best-step cw c pool b bv nb nv b' bv' d (lo, mine, which) (ge, all, from) =
    let v = current cw c.id +ℤ c.w in
    (
      omega arith,
      (omega arith, other_totals cw c.id v bv' pool (absent-All c.id pool d) all),
      elim from [
        | inr (m, e) ↦ inr (Best-from cw c pool b' bv' d m e)
        | inl (p, q) ↦ elim which [
          | inl (p', q') ↦ inl (p ∙ p', q ∙ q')
          | inr (p', q') ↦
              let here : b' ≡ c.id = p ∙ p' in
              let (m, e) = Best-here cw c pool d in
              inr (
                subst
                  (λ k.
                    (contains (ids (c ∷ pool)) k ≡ true)
                    × (bv' ≡ current cw k +ℤ weight_in k (c ∷ pool)))
                  (sym here) (m, q ∙ q' ∙ e))
        ]
      ],
    )

exact_poll-Best :
    (cw : Map ℤ) (total : ℤ) (b : Bytes) (bv : ℤ) (pool : List Candidate)
    → Distinct (ids pool)
    → (b' : Bytes) × (bv' : ℤ) × ((exact_poll cw total (some (b, bv)) pool).2 ≡ some (b', bv'))
      × Best cw pool b bv b' bv'
unfolding exact_poll
exact_poll-Best cw total b bv [] d = (b, bv, refl, (omega arith, tt, inl (refl, refl)))
exact_poll-Best cw total b bv (c ∷ pool) d =
    let v = current cw c.id +ℤ c.w in
    let cw' = GoMap.put c.id v cw in
    let mine : current cw' c.id ≡ v = ground (arith, current-put c.id c.id v cw, eq_refl c.id) in
    let next = better (some (b, bv)) c.id (current cw' c.id) in
    let (b', bv', e, best) = exact_poll-Best cw' (total +ℤ c.w) next.0 next.1 pool d.1 in
    (
      b',
      bv',
      e,
      Best-step cw c pool b bv next.0 next.1 b' bv' d.0
          (subst (λ t. Next b bv c.id t next.0 next.1) mine
            (better-Next b bv c.id (current cw' c.id)))
          best,
    )

Best-chosen :
    (cw : Map ℤ) (c : Candidate) (pool : List Candidate) (b : Bytes) (bv : ℤ)
    → contains (ids pool) c.id ≡ false
    → Best cw (c ∷ pool) c.id (current cw c.id +ℤ c.w) b bv
    → (contains (ids (c ∷ pool)) b ≡ true) × (bv ≡ current cw b +ℤ weight_in b (c ∷ pool))
Best-chosen cw c pool b bv d (_, _, inr found) = found
Best-chosen cw c pool b bv d (_, _, inl (p, q)) =
    let (m, e) = Best-here cw c pool d in
    subst
      (λ k. (contains (ids (c ∷ pool)) k ≡ true) × (bv ≡ current cw k +ℤ weight_in k (c ∷ pool)))
      (sym p) (m, q ∙ e)

-- the loop over a pool that is not empty
pub exact_poll_lem :
    (cw : Map ℤ) (c : Candidate) (pool : List Candidate)
    → Distinct (ids (c ∷ pool))
    → (b : Bytes) × (bv : ℤ) × ((exact_poll cw (pos 0) none (c ∷ pool)).2 ≡ some (b, bv))
      × (contains (ids (c ∷ pool)) b ≡ true)
      × All (λ d. current cw d.id +ℤ d.w ≤ℤ current cw b +ℤ weight_in b (c ∷ pool)) (c ∷ pool)
unfolding exact_poll better
exact_poll_lem cw c pool d =
    let v = current cw c.id +ℤ c.w in
    let cw' = GoMap.put c.id v cw in
    let mine : current cw' c.id ≡ v = ground (arith, current-put c.id c.id v cw, eq_refl c.id) in
    let (b, bv, e, best) = exact_poll-Best cw' (pos 0 +ℤ c.w) c.id (current cw' c.id) pool d.1 in
    let whole =
      Best-step cw c pool c.id v c.id v b bv d.0 (omega arith, omega arith, inl (refl, refl))
        (subst (λ t. Best cw' pool c.id t b bv) mine best) in
    let (m, q) = Best-chosen cw c pool b bv d.0 whole in
    (
      b,
      bv,
      e,
      m,
      subst (λ t. All (λ (x : Candidate). current cw x.id +ℤ x.w ≤ℤ t) (c ∷ pool)) q whole.1,
    )
