-- ===== src/Config/Validate/Sets.antt =====
-- The sets of texts that the loops of Validate keep, and lists with no repetition.
use ocfp.Prelude.{
  ◌≡◌, refl, subst, ap, true, false, some, List, [], ◌∷◌, Bytes, ◌==◌, eq→≡, eq_refl, eq_iff, arith,
  Bool-cases, inl, inr, is_some,
}
use ocfp.Config.File.{Egress}
use ocfp.Config.Validate.{contains, egress_ids, find_egress}

abbrev pub Distinct : List Bytes → Type 0
Distinct [] = Unit
Distinct (x ∷ xs) = (contains xs x ≡ false) × Distinct xs

abbrev pub All {ℓ κ} : {A : Type ℓ} → (A → Type κ) → List A → Type κ
All P [] = Unit
All P (x ∷ xs) = P x × All P xs

-- No text of the list is in the set, nor met earlier in the list.
abbrev pub Fresh : List Bytes → List Bytes → Type 0
Fresh seen [] = Unit
Fresh seen (x ∷ xs) = (contains seen x ≡ false) × Fresh (x ∷ seen) xs

contains_ne :
    (seen : List Bytes) (x y : Bytes)
    → contains seen x ≡ false
    → contains seen y ≡ true
    → x == y ≡ false
contains_ne seen x y hx hy = elim (Bool-cases (x == y)) [
  | inl e ↦ cc (hx, hy, ap (contains seen) (eq→≡ x y e))
  | inr e ↦ e
]

Fresh-disjoint :
    (seen xs : List Bytes) (y : Bytes)
    → Fresh seen xs
    → contains seen y ≡ true
    → contains xs y ≡ false
unfolding contains
Fresh-disjoint seen [] y f h = refl
Fresh-disjoint seen (x ∷ xs) y f h =
    ground (arith, contains_ne seen x y f.0 h, Fresh-disjoint (x ∷ seen) xs y f.1)

pub Fresh-Distinct : (seen xs : List Bytes) → Fresh seen xs → Distinct xs
unfolding contains
Fresh-Distinct seen [] f = tt
Fresh-Distinct seen (x ∷ xs) f = (
  Fresh-disjoint (x ∷ seen) xs x f.1 (ground (arith, eq_refl x)),
  Fresh-Distinct (x ∷ seen) xs f.1,
)

-- A text is among the ids exactly when an egress is found under it.
pub contains-find_egress :
    (es : List Egress) (k : Bytes) → contains (egress_ids es) k ≡ is_some (find_egress es k)
unfolding contains find_egress
contains-find_egress [] k = refl
contains-find_egress (e ∷ es) k = ground (arith, contains-find_egress es k)

pub find_egress-id :
    (es : List Egress) (k : Bytes) {e : Egress} → find_egress es k ≡ some e → e.id ≡ k
unfolding find_egress
find_egress-id [] k h = cc
find_egress-id (d ∷ es) k {e} h = ground (arith, find_egress-id es k {e = e}, eq_iff d.id k)

pub All_contains {ℓ} :
    (P : Bytes → Type ℓ) (xs : List Bytes) (k : Bytes) → All P xs → contains xs k ≡ true → P k
unfolding contains
All_contains P [] k a h = cc
All_contains P (x ∷ xs) k a h = elim (Bool-cases (x == k)) [
  | inl e ↦ subst P (eq→≡ x k e) a.0
  | inr e ↦ All_contains P xs k a.1 (rw e at h)
]

pub All_map {ℓ κ} :
    {A : Type ℓ} (P Q : A → Type κ) (xs : List A) → ((x : A) → P x → Q x) → All P xs → All Q xs
All_map P Q [] f a = tt
All_map P Q (x ∷ xs) f a = (f x a.0, All_map P Q xs f a.1)

pub All_map_two {ℓ κ} :
    {A : Type ℓ} (P Q R : A → Type κ) (xs : List A)
    → ((x : A) → P x → Q x → R x)
    → All P xs
    → All Q xs
    → All R xs
All_map_two P Q R [] f a b = tt
All_map_two P Q R (x ∷ xs) f a b = (f x a.0 b.0, All_map_two P Q R xs f a.1 b.1)
