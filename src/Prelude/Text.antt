-- ===== src/Prelude/Text.antt =====
-- Go strings: byte sequences and their comparison.
use Prim.Native.Char.{code}
use Prim.Native.String.{String}
use Prim.Native.Nat.{ℕ}
use mathlib.Core.Path.{◌≡◌, refl, subst}
use mathlib.Core.Logic.{◌↔◌}
use mathlib.Core.Bool.{Bool, true, false, ◌&&◌, ◌||◌}
use mathlib.Core.List.{List, [], ◌∷◌}
use native.Mathlib.Omega.{arith}
use ocfp.Prelude.Tests.{ltb, eqb}

abbrev pub Bytes : Type 0
Bytes = List ℕ

-- The bytes of an ASCII text.
abbrev pub bytes : String → Bytes
bytes String.[] = []
bytes (String.◌∷◌ c s) = code c ∷ bytes s

infix 50 ◌==◌
unfoldable pub ◌==◌ : Bytes → Bytes → Bool
[] == [] = true
[] == (b ∷ t) = false
(a ∷ s) == [] = false
(a ∷ s) == (b ∷ t) = eqb a b && s == t

pub eq→≡ : (s t : Bytes) → s == t ≡ true → s ≡ t
unfolding ◌==◌
eq→≡ [] [] h = refl
eq→≡ [] (b ∷ t) h = cc
eq→≡ (a ∷ s) [] h = cc
eq→≡ (a ∷ s) (b ∷ t) h = ground (arith, eq→≡ s t)

pub eq_refl : (s : Bytes) → s == s ≡ true
unfolding ◌==◌
eq_refl [] = refl
eq_refl (a ∷ s) = ground (arith, eq_refl s)

pub eq_iff : (s t : Bytes) → (s == t ≡ true) ↔ (s ≡ t)
eq_iff s t = (eq→≡ s t, λ e. subst (λ u. s == u ≡ true) e (eq_refl s))

-- hasControlByte of internal/config/file.go: C0 and DEL
unfoldable pub has_control_byte : Bytes → Bool
has_control_byte [] = false
has_control_byte (c ∷ s) = ltb c 0x20 || eqb c 0x7f || has_control_byte s
