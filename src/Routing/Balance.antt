-- ===== src/Routing/Balance.antt =====
-- The invariant of weighted selection: the current weights of a pool add up to 0, and each is above minus the
-- sum of the weights.
use ocfp.Prelude.{
  ℕ, ◌^◌, ◌<◌, length, suc, ◌+◌, ◌*◌, ◌≤◌, ◌≡◌, refl, ap, ◌∙◌, true, false, List, [], ◌∷◌, Bytes,
  ◌==◌, eq→≡, eq_refl, eq_iff, subst, arith, if◌then◌else◌, Bool-cases, inl, inr,
}
use ocfp.Prelude.Int.{ℤ, ltb_ℤ, pos, pos_part, neg_part, ◌+ℤ◌, ◌-ℤ◌, ◌≤ℤ◌, int_laws}
use ocfp.Prelude.GoMap
use ocfp.Prelude.GoMap.{Map}
use ocfp.Config.Validate.{contains}
use ocfp.Config.Validate.Sets.{All, All_map, All_map_two, Distinct}
use ocfp.Routing.{Candidate, current, select}
use ocfp.Routing.Exact.{ids, weight_in, weight_sum, absent-weight_in, absent-All}
use ocfp.Routing.Weighted.{IsPositive, HasRoom, weight_sum_nonneg, select-Selects}

abbrev pub current_sum : Map ℤ → List Candidate → ℤ
current_sum cw [] = pos 0
current_sum cw (c ∷ pool) = current cw c.id +ℤ current_sum cw pool

-- Between two selections the current weights of the pool add up to 0, and each is above minus the
-- sum of the weights.
pub record IsBalanced (cw : Map ℤ) (pool : List Candidate) : Type 0 where
  pub sum : current_sum cw pool ≡ pos 0
  pub low : All (λ c. pos 1 ≤ℤ current cw c.id +ℤ weight_sum pool) pool

-- the weight of each member, met in a pool with distinct ids
own_weights :
    (pool : List Candidate) → Distinct (ids pool) → All (λ c. weight_in c.id pool ≡ c.w) pool
own_weights [] d = tt
own_weights (c ∷ pool) d = (
  rw (eq_refl, absent-weight_in c.id pool d.0) (omega int_laws),
  All_map_two _ _ _ pool (λ x n e. rw n e) (absent-All c.id pool d.0) (own_weights pool d.1),
)

-- Taking total from b: over a part of the pool the sum falls by total if b is there.
sum_change :
    (cw cw' : Map ℤ) (b : Bytes) (total : ℤ) (p pool : List Candidate)
    → ((k : Bytes)
        → current cw' k ≡ current cw k +ℤ weight_in k p -ℤ (if b == k then total else pos 0))
    → All (λ c. weight_in c.id p ≡ c.w) pool
    → Distinct (ids pool)
    → current_sum cw' pool
      ≡ current_sum cw pool +ℤ weight_sum pool -ℤ (if contains (ids pool) b then total else pos 0)
unfolding contains
sum_change cw cw' b total p [] h o d = omega int_laws
sum_change cw cw' b total p (c ∷ pool) h o d =
    let rest = sum_change cw cw' b total p pool h o.1 d.1 in
    elim (Bool-cases (c.id == b)) [
      | inl e ↦
          let same : c.id ≡ b = eq→≡ c.id b e in
          let gone : contains (ids pool) b ≡ false =
            subst (λ k. contains (ids pool) k ≡ false) same d.0 in
          let taken : (b == c.id) ≡ true = rw same (eq_refl b) in
          let mine : current cw' c.id ≡ current cw c.id +ℤ c.w -ℤ total =
            h c.id ∙ (rw (taken, o.0) refl) in
          let others : current_sum cw' pool ≡ current_sum cw pool +ℤ weight_sum pool -ℤ pos 0 =
            rw gone at rest in
          rw e (rw (mine, others) (omega int_laws))
      | inr e ↦
          let kept : (b == c.id) ≡ false = ground (arith, eq_iff b c.id, eq_iff c.id b) in
          let mine : current cw' c.id ≡ current cw c.id +ℤ c.w -ℤ pos 0 =
            h c.id ∙ (rw (kept, o.0) refl) in
          rw e (rw (mine, rest) (omega int_laws))
    ]

-- totals that are all at most m add up to at most 0 if m is
totals_bound :
    (cw : Map ℤ) (m : ℤ) (pool : List Candidate)
    → m ≤ℤ pos 0
    → All (λ c. current cw c.id +ℤ c.w ≤ℤ m) pool
    → current_sum cw pool +ℤ weight_sum pool ≤ℤ pos 0
totals_bound cw m [] h a = omega int_laws
totals_bound cw m (c ∷ pool) h a = omega (int_laws, totals_bound cw m pool h a.1)

module _ (cw cw' : Map ℤ) (b : Bytes) (pool : List Candidate) where
  low_kept :
      (total : ℤ) (rest : List Candidate)
      → ((k : Bytes)
          → current cw' k ≡ current cw k +ℤ weight_in k pool -ℤ (if b == k then total else pos 0))
      → pos 1 ≤ℤ current cw b +ℤ weight_in b pool
      → All (λ c. weight_in c.id pool ≡ c.w) rest
      → All IsPositive rest
      → All (λ c. pos 1 ≤ℤ current cw c.id +ℤ total) rest
      → All (λ c. pos 1 ≤ℤ current cw' c.id +ℤ total) rest
  low_kept total [] h m o w l = tt
  low_kept total (c ∷ rest) h m o w l = (
    elim (Bool-cases (b == c.id)) [
      | inl e ↦
          let same : b ≡ c.id = eq→≡ b c.id e in
          let now : current cw' c.id ≡ current cw b +ℤ weight_in b pool -ℤ total =
            h c.id ∙ (rw e (rw same refl)) in
          rw now (omega int_laws)
      | inr e ↦
          let now : current cw' c.id ≡ current cw c.id +ℤ c.w -ℤ pos 0 =
            h c.id ∙ (rw (e, o.0) refl) in
          rw now (omega int_laws)
    ],
    low_kept total rest h m o.1 w.1 l.1,
  )

top_positive :
    (cw : Map ℤ) (c : Candidate) (pool : List Candidate) (m : ℤ)
    → All IsPositive (c ∷ pool)
    → current_sum cw (c ∷ pool) ≡ pos 0
    → All (λ x. current cw x.id +ℤ x.w ≤ℤ m) (c ∷ pool)
    → pos 1 ≤ℤ m
top_positive cw c pool m w s a = elim (Bool-cases (ltb_ℤ (pos 0) m)) [
  | inl e ↦ ground arith
  | inr e ↦
      let low : m ≤ℤ pos 0 = ground arith in
      absurd (
        omega (
          int_laws,
          totals_bound cw m (c ∷ pool) low a,
          weight_sum_nonneg pool w.1,
          ap pos_part s,
          ap neg_part s,
        ))
]

-- Members that are each above minus t: their sum is above minus t for each, and no member is above it by more.
spread :
    (cw : Map ℤ) (t : ℕ) (pool : List Candidate)
    → All (λ c. pos 1 ≤ℤ current cw c.id +ℤ pos t) pool
    → (pos 0 ≤ℤ current_sum cw pool +ℤ pos (length pool * t))
      × All (λ c. current cw c.id +ℤ pos t ≤ℤ current_sum cw pool +ℤ pos (length pool * t)) pool
spread cw t [] l = (omega int_laws, tt)
spread cw t (c ∷ pool) l =
    let (low, high) = spread cw t pool l.1 in
    let more : suc (length pool) * t ≡ t + length pool * t = grind arith in
    rw more (omega int_laws, (omega int_laws, All_map _ _ pool (λ x h. omega int_laws) high))

-- A balanced state of a pool whose size times its weights is below 2^62 leaves every sum of a selection in
-- the range of an int.
pub IsBalanced-HasRoom :
    (cw : Map ℤ) (c : Candidate) (pool : List Candidate) (t : ℕ)
    → All IsPositive (c ∷ pool)
    → IsBalanced cw (c ∷ pool)
    → weight_sum (c ∷ pool) ≡ pos t
    → length (c ∷ pool) * t < 2 ^ 62
    → HasRoom cw (c ∷ pool)
IsBalanced-HasRoom cw c pool t w v s small =
    let p = c ∷ pool in
    let low : All (λ x. pos 1 ≤ℤ current cw x.id +ℤ pos t) p =
      subst (λ z. All (λ (x : Candidate). pos 1 ≤ℤ current cw x.id +ℤ z) p) s v.low in
    let (_, high) = spread cw t p low in
    let once : t ≤ length p * t = grind arith in
    record {
      weights = w;
      sum = rw s (omega arith);
      currents =
          All_map_two _ _ _ p
            (λ x l h. (omega int_laws, omega (int_laws, ap pos_part v.sum, ap neg_part v.sum))) low
            high;
    }

pub select-IsBalanced :
    (cw : Map ℤ) (c : Candidate) (pool : List Candidate)
    → Distinct (ids (c ∷ pool))
    → All IsPositive (c ∷ pool)
    → HasRoom cw (c ∷ pool)
    → IsBalanced cw (c ∷ pool)
    → IsBalanced (select cw (c ∷ pool)).0 (c ∷ pool)
select-IsBalanced cw c pool d w room v =
    let p = c ∷ pool in
    let (cw', b) = select cw p in
    let (m, top, h) = select-Selects cw c pool d room in
    let own = own_weights p d in
    record {
      sum = sum_change cw cw' b (weight_sum p) p p h own d ∙ (rw (m, v.sum) (omega int_laws));
      low =
          low_kept cw cw' b p (weight_sum p) p h
            (top_positive cw c pool (current cw b +ℤ weight_in b p) w v.sum top) own w v.low;
    }

pub fresh-IsBalanced :
    (pool : List Candidate) (total : ℤ)
    → pos 1 ≤ℤ total
    → (current_sum [] pool ≡ pos 0) × All (λ c. pos 1 ≤ℤ current [] c.id +ℤ total) pool
unfolding current GoMap.get
fresh-IsBalanced [] total h = (refl, tt)
fresh-IsBalanced (c ∷ pool) total h =
    let (s, l) = fresh-IsBalanced pool total h in (rw s (omega int_laws), (omega int_laws, l))
