-- ===== src/Usage/Units.antt =====
-- UTF16Len and hex4 of internal/usage/usage.go. The loop's body says how many code units and how many bytes it
-- takes; utf8.DecodeRuneInString is a parameter, which answers a rune and its size.
pub mod Bounds
use ocfp.Prelude.{
  ℕ, zero, suc, ◌+◌, ◌-◌, ◌*◌, Bool, true, false, ◌&&◌, ◌||◌, Option, none, some, List, [], ◌∷◌,
  Bytes, eqb, leb, ltb, if◌then◌else◌, length, drop,
}

abbrev pub hex_digit_value : ℕ → Option ℕ
hex_digit_value c =
    if leb 48 c && leb c 57
    then some (c - 48)
    else if leb 97 c && leb c 102
    then some (c - 97 + 10)
    else if leb 65 c && leb c 70
    then some (c - 65 + 10)
    else none

abbrev pub shift_in : Option ℕ → Option ℕ → Option ℕ
shift_in none d = none
shift_in (some v) none = none
shift_in (some v) (some d) = some (v * 16 + d)

unfoldable pub hex4 : Bytes → Option ℕ
hex4 (a ∷ b ∷ c ∷ d ∷ s) =
    shift_in (shift_in (shift_in (hex_digit_value a) (hex_digit_value b)) (hex_digit_value c))
      (hex_digit_value d)
hex4 _ = none

-- " \ / b f n r t behind a backslash
abbrev pub is_short_escape : ℕ → Bool
is_short_escape c =
    eqb c 34 || eqb c 92 || eqb c 47 || eqb c 98 || eqb c 102 || eqb c 110 || eqb c 114 || eqb c 116

-- a low surrogate's escape
abbrev pub is_low_escape : Bytes → Bool
unfolding hex4
is_low_escape (b ∷ u ∷ s) =
    eqb b 92
    && eqb u 117
    && elim (hex4 s) [ none ↦ false | some lo ↦ leb 0xdc00 lo && leb lo 0xdfff ]
is_low_escape _ = false

abbrev pub is_high : ℕ → Bool
is_high cp = leb 0xd800 cp && ltb cp 0xdc00

abbrev pub escaped : Option ℕ → Bool → ℕ × ℕ
escaped none low = (1, 1)
escaped (some cp) low = if is_high cp && low then (2, 12) else (1, 6)

-- units and bytes of \uXXXX, `s` standing behind the u
abbrev pub unicode_escape : Bytes → ℕ × ℕ
unfolding hex4 is_low_escape
unicode_escape s = escaped (hex4 s) (is_low_escape (drop 4 s))

module _ (decode : Bytes → ℕ × ℕ) where
  abbrev pub rune_units : ℕ × ℕ → ℕ × ℕ
  rune_units (r, size) =
      if eqb r 0xfffd && eqb size 1 then (1, 1) else if ltb 0xffff r then (2, size) else (1, size)

  -- one round of the loop, at a byte
  unfoldable pub round : Bytes → ℕ × ℕ
  unfolding unicode_escape
  round [] = (0, 0)
  round (c ∷ []) = rune_units (decode (c ∷ []))
  round (c ∷ d ∷ s) =
      if eqb c 92
      then if is_short_escape d then (1, 2) else if eqb d 117 then unicode_escape s else (1, 1)
      else rune_units (decode (c ∷ d ∷ s))

  unfoldable pub units : ℕ → Bytes → ℕ
  unfolding round
  units zero s = 0
  units (suc fuel) [] = 0
  units (suc fuel) (c ∷ s) = (round (c ∷ s)).0 + units fuel (drop (round (c ∷ s)).1 (c ∷ s))

  -- every round takes a byte
  abbrev pub utf16_len : Bytes → ℕ
  unfolding units
  utf16_len s = units (length s) s
