-- ===== src/Routing/Share.antt =====
-- Runs of selections from one pool: no member is ever picked more than one time ahead of its share.
use ocfp.Prelude.{
  ℕ, ◌^◌, ◌<◌, length, zero, suc, ◌+◌, ◌*◌, ◌≤◌, ◌≡◌, refl, ap, ◌∙◌, true, List, [], ◌∷◌, Bytes,
  ◌==◌, arith, Bool-cases, inl, inr, count,
}
use ocfp.Prelude.Int.{ℤ, pos, pos_part, neg_part, ◌+ℤ◌, ◌-ℤ◌, ◌≤ℤ◌, int_laws}
use ocfp.Prelude.GoMap
use ocfp.Prelude.GoMap.{Map}
use ocfp.Config.Validate.{contains}
use ocfp.Config.Validate.Sets.{All, Distinct}
use ocfp.Routing.{Candidate, current, select}
use ocfp.Routing.Exact.{ids, weight_in, weight_sum}
use ocfp.Routing.Weighted.{IsPositive, weight_sum_nonneg, All_ids, select-Selects}
use ocfp.Routing.Balance.{IsBalanced, IsBalanced-HasRoom, select-IsBalanced, fresh-IsBalanced}

-- the picks of n selections, the first in front, and the current weights behind them
abbrev pub select_times : ℕ → Map ℤ → List Candidate → Map ℤ × List Bytes
select_times zero cw pool = (cw, [])
select_times (suc n) cw pool =
    let (cw', b) = select cw pool in let (cw'', bs) = select_times n cw' pool in (cw'', b ∷ bs)

-- The account of an id of weight w over n selections, where the weights add up to t.
select_times_account :
    (n : ℕ) (cw : Map ℤ) (c : Candidate) (pool : List Candidate) (k : Bytes) (w t : ℕ)
    → Distinct (ids (c ∷ pool))
    → All IsPositive (c ∷ pool)
    → IsBalanced cw (c ∷ pool)
    → length (c ∷ pool) * t < 2 ^ 62
    → weight_in k (c ∷ pool) ≡ pos w
    → weight_sum (c ∷ pool) ≡ pos t
    → let (cw', bs) = select_times n cw (c ∷ pool) in
      pos_part (current cw' k) + neg_part (current cw k) + count k bs * t
      ≡ neg_part (current cw' k) + pos_part (current cw k) + n * w
select_times_account zero cw c pool k w t d p v small h s = omega arith
select_times_account (suc n) cw c pool k w t d p v small h s =
    let (cw', b) = select cw (c ∷ pool) in
    let room = IsBalanced-HasRoom cw c pool t p v s small in
    let rest =
      select_times_account n cw' c pool k w t d p (select-IsBalanced cw c pool d p room v) small h
        s in
    let now = (select-Selects cw c pool d room).2 k in
    elim (Bool-cases (b == k)) [
      | inl e ↦
          let change : current cw' k ≡ current cw k +ℤ pos w -ℤ pos t = now ∙ (rw (e, h, s) refl) in
          rw e (omega (int_laws, rest, ap pos_part change, ap neg_part change))
      | inr e ↦
          let change : current cw' k ≡ current cw k +ℤ pos w -ℤ pos 0 = now ∙ (rw (e, h) refl) in
          rw e (omega (int_laws, rest, ap pos_part change, ap neg_part change))
    ]

select_times-IsBalanced :
    (n : ℕ) (cw : Map ℤ) (c : Candidate) (pool : List Candidate) (t : ℕ)
    → Distinct (ids (c ∷ pool))
    → All IsPositive (c ∷ pool)
    → weight_sum (c ∷ pool) ≡ pos t
    → length (c ∷ pool) * t < 2 ^ 62
    → IsBalanced cw (c ∷ pool)
    → IsBalanced (select_times n cw (c ∷ pool)).0 (c ∷ pool)
select_times-IsBalanced zero cw c pool t d w s small v = v
select_times-IsBalanced (suc n) cw c pool t d w s small v =
    select_times-IsBalanced n (select cw (c ∷ pool)).0 c pool t d w s small
      (select-IsBalanced cw c pool d w (IsBalanced-HasRoom cw c pool t w v s small) v)

current-empty : (k : Bytes) → current [] k ≡ pos 0
unfolding current GoMap.get
current-empty k = refl

-- From fresh state, n selections from a pool with distinct ids and positive weights that add up to t, which
-- times the size of the pool is below 2^62, pick a member of weight w fewer than n * w / t + 1 times: never a whole turn ahead of its share.
pub select_times_share :
    (n : ℕ) (c : Candidate) (pool : List Candidate) (k : Bytes) (w t : ℕ)
    → Distinct (ids (c ∷ pool))
    → All IsPositive (c ∷ pool)
    → contains (ids (c ∷ pool)) k ≡ true
    → weight_in k (c ∷ pool) ≡ pos w
    → weight_sum (c ∷ pool) ≡ pos t
    → length (c ∷ pool) * t < 2 ^ 62
    → count k (select_times n [] (c ∷ pool)).1 * t + 1 ≤ n * w + t
select_times_share n c pool k w t d p m h s small =
    let total : pos 1 ≤ℤ weight_sum (c ∷ pool) = omega (int_laws, weight_sum_nonneg pool p.1) in
    let (sum, low) = fresh-IsBalanced (c ∷ pool) (weight_sum (c ∷ pool)) total in
    let start : IsBalanced [] (c ∷ pool) = record { sum = sum; low = low } in
    let final = select_times-IsBalanced n [] c pool t d p s small start in
    let cw = (select_times n [] (c ∷ pool)).0 in
    let bound : pos 1 ≤ℤ current cw k +ℤ pos t =
      rw s at
        (All_ids (λ j. pos 1 ≤ℤ current cw j +ℤ weight_sum (c ∷ pool)) (c ∷ pool) k final.low m) in
    omega (
      int_laws,
      select_times_account n [] c pool k w t d p start small h s,
      ap pos_part (current-empty k),
      ap neg_part (current-empty k),
    )
