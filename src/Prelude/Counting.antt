-- ===== src/Prelude/Counting.antt =====
-- How often a text stands in a list, and the sets and distinct lists that go with it.
use Prim.Native.Nat.{ℕ, suc, ◌+◌}
use mathlib.Core.Path.{◌≡◌}
use mathlib.Core.List.{List, [], ◌∷◌, ◌++◌}
use native.Mathlib.Omega.{arith}
use ocfp.Prelude.Tests.{if◌then◌else◌}
use ocfp.Prelude.Text.{Bytes, ◌==◌}

abbrev pub count : Bytes → List Bytes → ℕ
count k [] = 0
count k (h ∷ hs) = let rest = count k hs in if h == k then suc rest else rest

pub count-append : (k : Bytes) (xs ys : List Bytes) → count k (xs ++ ys) ≡ count k xs + count k ys
count-append k [] ys = omega arith
count-append k (x ∷ xs) ys = ground (arith, count-append k xs ys)
