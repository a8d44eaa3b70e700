-- ===== src/Routing/Exact.antt =====
-- A selection in integers that do not wrap, which the code follows while its sums are in the range of an
-- int: the current weights and the total that its loop leaves.
use ocfp.Prelude.{
  ◌≡◌, refl, ap, ◌∙◌, inl, inr, true, false, Option, none, some, List, [], ◌∷◌, Bytes, ◌==◌, eq→≡,
  eq_iff, arith, if◌then◌else◌, Bool-cases, map,
}
use ocfp.Prelude.Int.{ℤ, pos, pos_part, neg_part, ◌+ℤ◌, ◌-ℤ◌, int_laws}
use ocfp.Prelude.GoMap
use ocfp.Prelude.GoMap.{Map, get-put}
use ocfp.Config.Validate.{contains}
use ocfp.Config.Validate.Sets.{All}
use ocfp.Routing.{Candidate, current, better}

-- the loop of a selection with sums that do not wrap
unfoldable pub exact_poll :
    Map ℤ → ℤ → Option (Bytes × ℤ) → List Candidate → Map ℤ × ℤ × Option (Bytes × ℤ)
unfolding better
exact_poll cw total best [] = (cw, total, best)
exact_poll cw total best (c ∷ pool) =
    let cw' = GoMap.put c.id (current cw c.id +ℤ c.w) cw in
    exact_poll cw' (total +ℤ c.w) (some (better best c.id (current cw' c.id))) pool

unfoldable pub exact_charge : Map ℤ × ℤ × Option (Bytes × ℤ) → Map ℤ × Bytes
exact_charge (cw, total, none) = (cw, [])
exact_charge (cw, total, some (b, bv)) = (GoMap.put b (current cw b -ℤ total) cw, b)

abbrev pub ids : List Candidate → List Bytes
ids = map (λ c. c.id)

-- the weight that a selection adds to an id
abbrev pub weight_in : Bytes → List Candidate → ℤ
weight_in k [] = pos 0
weight_in k (c ∷ pool) = let rest = weight_in k pool in if c.id == k then c.w +ℤ rest else rest

abbrev pub weight_sum : List Candidate → ℤ
weight_sum [] = pos 0
weight_sum (c ∷ pool) = c.w +ℤ weight_sum pool

pub current-put :
    (k j : Bytes) (v : ℤ) (cw : Map ℤ)
    → current (GoMap.put k v cw) j ≡ (if k == j then v else current cw j)
unfolding current
current-put k j v cw = ground (arith, get-put k j v cw)

weighed :
    (cw : Map ℤ) (j k : Bytes) (w rest : ℤ)
    → current (GoMap.put j (current cw j +ℤ w) cw) k +ℤ rest
      ≡ current cw k +ℤ (if j == k then w +ℤ rest else rest)
weighed cw j k w rest = elim (Bool-cases (j == k)) [
  | inl e ↦ let same : j ≡ k = eq→≡ j k e in rw (current-put, e) (rw same (omega int_laws))
  | inr e ↦ rw (current-put, e) refl
]

pub exact_poll-current :
    (cw : Map ℤ) (total : ℤ) (best : Option (Bytes × ℤ)) (pool : List Candidate) (k : Bytes)
    → current (exact_poll cw total best pool).0 k ≡ current cw k +ℤ weight_in k pool
unfolding exact_poll
exact_poll-current cw total best [] k = omega int_laws
exact_poll-current cw total best (c ∷ pool) k =
    let v = current cw c.id +ℤ c.w in
    let cw' = GoMap.put c.id v cw in
    exact_poll-current cw' (total +ℤ c.w) (some (better best c.id (current cw' c.id))) pool k
    ∙ weighed cw c.id k c.w (weight_in k pool)

pub exact_poll-total :
    (cw : Map ℤ) (total : ℤ) (best : Option (Bytes × ℤ)) (pool : List Candidate)
    → (exact_poll cw total best pool).1 ≡ total +ℤ weight_sum pool
unfolding exact_poll
exact_poll-total cw total best [] = omega int_laws
exact_poll-total cw total best (c ∷ pool) =
    let v = current cw c.id +ℤ c.w in
    let cw' = GoMap.put c.id v cw in
    exact_poll-total cw' (total +ℤ c.w) (some (better best c.id (current cw' c.id))) pool
    ∙ (omega int_laws)

pub not_same :
    (j k : Bytes) (ks : List Bytes) → contains ks j ≡ false → contains ks k ≡ true → j == k ≡ false
not_same j k ks h m = elim (Bool-cases (j == k)) [
  | inl e ↦ cc (h, m, ap (contains ks) (eq→≡ j k e))
  | inr e ↦ e
]

pub absent-All :
    (k : Bytes) (pool : List Candidate)
    → contains (ids pool) k ≡ false
    → All (λ c. k == c.id ≡ false) pool
unfolding contains
absent-All k [] h = tt
absent-All k (c ∷ pool) h =
    (ground (arith, eq_iff c.id k, eq_iff k c.id), absent-All k pool (ground arith))

pub absent-weight_in :
    (k : Bytes) (pool : List Candidate) → contains (ids pool) k ≡ false → weight_in k pool ≡ pos 0
unfolding contains
absent-weight_in k [] h = refl
absent-weight_in k (c ∷ pool) h = ground (arith, absent-weight_in k pool)

pub exact_charge-some :
    (t : Map ℤ × ℤ × Option (Bytes × ℤ)) (b : Bytes) (bv : ℤ)
    → t.2 ≡ some (b, bv)
    → exact_charge t ≡ (GoMap.put b (current t.0 b -ℤ t.1) t.0, b)
unfolding exact_charge
exact_charge-some (cw, total, none) b bv e = cc
exact_charge-some (cw, total, some (b', bv')) b bv e = let p : b' ≡ b = cc in rw p refl

pub charged :
    (cw cw' : Map ℤ) (b k : Bytes) (w total : ℤ) (p : List Candidate)
    → ((j : Bytes) → current cw' j ≡ current cw j +ℤ weight_in j p)
    → total ≡ pos 0 +ℤ weight_sum p
    → current (GoMap.put b (current cw' b -ℤ total) cw') k
      ≡ current cw k +ℤ weight_in k p -ℤ (if b == k then weight_sum p else pos 0)
charged cw cw' b k w total p h t = elim (Bool-cases (b == k)) [
  | inl e ↦
      let same : b ≡ k = eq→≡ b k e in
      rw (current-put, e)
        (rw same
          (omega (int_laws, ap pos_part (h k), ap neg_part (h k), ap pos_part t, ap neg_part t)))
  | inr e ↦ rw (current-put, e) (h k ∙ (omega int_laws))
]
