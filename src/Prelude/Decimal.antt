-- ===== src/Prelude/Decimal.antt =====
-- strconv.Itoa: the decimal digits of an integer. The fuel is one more than the number, which each
-- round divides by ten.
use Prim.Native.Nat.{ℕ, zero, suc, ◌+◌, ◌-◌, ◌*◌, ◌/◌, ◌%◌, ◌<◌, ◌≤◌}
use mathlib.Core.Path.{◌≡◌, refl, ap, sym, ◌∙◌}
use mathlib.Core.Logic.{◌≢◌, inl, inr}
use mathlib.Core.Bool.{false}
use mathlib.Core.List.{[], ◌∷◌}
use native.Mathlib.Omega.{arith}
use ocfp.Prelude.Tests.{ltb, if◌then◌else◌, Bool-cases}
use ocfp.Prelude.Text.{Bytes}
use ocfp.Prelude.Int.{ℤ, pos, negsuc}
use ocfp.Prelude.Text.{has_control_byte}

digits : ℕ → ℕ → Bytes → Bytes
digits zero n acc = acc
digits (suc f) n acc =
    let rest = digits f (n / 10) ((b'0' + n % 10) ∷ acc) in
    if ltb n 10 then (b'0' + n) ∷ acc else rest

unfoldable pub itoa : ℤ → Bytes
unfolding digits
itoa (pos n) = digits (suc n) n []
itoa (negsuc n) = b'-' ∷ digits (suc (suc n)) (suc n) []

-- the number that decimal digits read as, behind a value already read
value : ℕ → Bytes → ℕ
value v [] = v
value v (c ∷ s) = value (10 * v + (c - b'0')) s

value-digits : (f n : ℕ) (acc : Bytes) → n < f → value 0 (digits f n acc) ≡ value n acc
unfolding digits value
value-digits zero n acc h = absurd (omega arith)
value-digits (suc f) n acc h = elim (Bool-cases (ltb n 10)) [
  | inl e ↦ rw e (ap (λ t. value t acc) (omega arith))
  | inr e ↦ rw e (
      value-digits f (n / 10) ((b'0' + n % 10) ∷ acc) (ground arith)
      ∙ ap (λ t. value t acc) (omega arith))
]

abbrev pub IsNumeral : Bytes → Type 0
IsNumeral [] = Unit
IsNumeral (c ∷ s) = (b'0' ≤ c) × (c ≤ b'9') × IsNumeral s

digits-IsNumeral : (f n : ℕ) (acc : Bytes) → IsNumeral acc → IsNumeral (digits f n acc)
unfolding digits
digits-IsNumeral zero n acc h = h
digits-IsNumeral (suc f) n acc h =
    ground (arith, digits-IsNumeral f (n / 10) ((b'0' + n % 10) ∷ acc))

digits_read : (n : ℕ) → value 0 (digits (suc n) n []) ≡ n
unfolding value
digits_read n = value-digits (suc n) n [] (omega arith)

drop_one : Bytes → Bytes
drop_one [] = []
drop_one (c ∷ s) = s

not_minus : (s : Bytes) (t : Bytes) → IsNumeral s → s ≢ b'-' ∷ t
not_minus [] t h = λ e. cc e
not_minus (c ∷ s) t h = λ e. ground arith

-- Different integers have different texts.
pub itoa_injective : (a b : ℤ) → itoa a ≡ itoa b → a ≡ b
unfolding itoa drop_one
itoa_injective (pos m) (pos n) h = cc (digits_read m, digits_read n)
itoa_injective (pos m) (negsuc n) h =
    absurd (not_minus (digits (suc m) m []) _ (digits-IsNumeral (suc m) m [] tt) h)
itoa_injective (negsuc m) (pos n) h =
    absurd (not_minus (digits (suc n) n []) _ (digits-IsNumeral (suc n) n [] tt) (sym h))
itoa_injective (negsuc m) (negsuc n) h = cc (digits_read (suc m), digits_read (suc n))

numeral_clean : (s : Bytes) → IsNumeral s → has_control_byte s ≡ false
unfolding has_control_byte
numeral_clean [] h = refl
numeral_clean (c ∷ s) h = ground (arith, numeral_clean s h.2)

-- The text of an integer has no control byte.
pub itoa_clean : (a : ℤ) → has_control_byte (itoa a) ≡ false
unfolding itoa has_control_byte
itoa_clean (pos n) = numeral_clean (digits (suc n) n []) (digits-IsNumeral (suc n) n [] tt)
itoa_clean (negsuc n) =
    numeral_clean (digits (suc (suc n)) (suc n) []) (digits-IsNumeral (suc (suc n)) (suc n) [] tt)
