-- ===== src/Prelude/GoMap.antt =====
-- Go's `map[string]V` as an association list. Where the source ranges over a map, it does so in the
-- list's order, which may be any.
use mathlib.Core.Path.{◌≡◌, refl}
use mathlib.Core.Bool.{Bool}
use mathlib.Core.Option.{Option, none, some}
use mathlib.Core.List.{List, [], ◌∷◌}
use Prim.Native.Nat.{ℕ, suc, ◌+◌}
use native.Mathlib.Omega.{arith}
use mathlib.Core.Logic.{inl, inr}
use ocfp.Prelude.Tests.{if◌then◌else◌, Bool-cases}
use ocfp.Prelude.Lists.{length}
use ocfp.Prelude.Text.{Bytes, ◌==◌, eq→≡, eq_refl, eq_iff}

abbrev pub Map {ℓ} : Type ℓ → Type ℓ
Map V = List (Bytes × V)

module _ {ℓ} {V : Type ℓ} where
  -- v, ok := m[k]
  unfoldable pub get : Bytes → Map V → Option V
  get k [] = none
  get k ((j, v) ∷ m) = if j == k then some v else get k m

  -- m[k] = v
  unfoldable pub put : Bytes → V → Map V → Map V
  put k v [] = (k, v) ∷ []
  put k v ((j, w) ∷ m) = if j == k then (j, v) ∷ m else (j, w) ∷ put k v m

  -- delete(m, k)
  unfoldable pub delete : Bytes → Map V → Map V
  delete k [] = []
  delete k ((j, v) ∷ m) = let rest = delete k m in if j == k then rest else (j, v) ∷ rest

  -- for k := range m { if !keep(k) { delete(m, k) } }
  unfoldable pub retain : (Bytes → Bool) → Map V → Map V
  retain keep [] = []
  retain keep ((j, v) ∷ m) = let rest = retain keep m in if keep j then (j, v) ∷ rest else rest

  -- the number of entries that such a loop deletes
  unfoldable pub dropped : (Bytes → Bool) → Map V → ℕ
  dropped keep [] = 0
  dropped keep ((j, v) ∷ m) = let rest = dropped keep m in if keep j then rest else suc rest

  pub get-put :
      (k j : Bytes) (v : V) (m : Map V) → get j (put k v m) ≡ (if k == j then some v else get j m)
  unfolding get put
  get-put k j v [] = refl
  get-put k j v ((i, w) ∷ m) = ground (arith, eq_iff k j, eq_iff i k, eq_iff i j, get-put k j v m)

  pub get-delete :
      (k j : Bytes) (m : Map V) → get j (delete k m) ≡ (if k == j then none else get j m)
  unfolding get delete
  get-delete k j [] = ground arith
  get-delete k j ((i, w) ∷ m) = ground (arith, eq_iff k j, eq_iff i k, eq_iff i j, get-delete k j m)

  pub get-retain :
      (keep : Bytes → Bool) (j : Bytes) (m : Map V)
      → get j (retain keep m) ≡ (if keep j then get j m else none)
  unfolding get retain
  get-retain keep j [] = ground arith
  get-retain keep j ((i, w) ∷ m) = elim (Bool-cases (i == j)) [
    | inl e ↦ let p : i ≡ j = eq→≡ i j e in rw p (ground (arith, eq_refl j, get-retain keep j m))
    | inr e ↦ ground (arith, get-retain keep j m)
  ]

  pub dropped-retain :
      (keep : Bytes → Bool) (m : Map V) → dropped keep m + length (retain keep m) ≡ length m
  unfolding dropped retain
  dropped-retain keep [] = omega arith
  dropped-retain keep ((i, w) ∷ m) = ground (arith, dropped-retain keep m)
