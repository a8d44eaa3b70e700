-- ===== src/Usage/Units/Bounds.antt =====
-- The loop of UTF16Len ends, and never counts more units than bytes.
use ocfp.Prelude.{
  ℕ, zero, suc, ◌+◌, ◌≤◌, ◌<◌, ◌≡◌, refl, sym, ap, ◌∙◌, Bool, ◌&&◌, Option, none, some, [], ◌∷◌,
  Bytes, eqb, ltb, length, drop, length-drop, arith, Bool-cases, inl, inr,
}
use ocfp.Usage.Units.{
  hex4, is_short_escape, is_low_escape, is_high, escaped, unicode_escape, rune_units, round, units,
  utf16_len,
}

-- What utf8.DecodeRuneInString answers for a text that is not empty: at least one byte and not more than
-- there are, at most a rune's worth, and four for a rune beyond the basic plane.
unfoldable pub IsDecoder : (Bytes → ℕ × ℕ) → Type 0
IsDecoder decode =
    (c : ℕ) (s : Bytes)
    → (1 ≤ (decode (c ∷ s)).1)
      × ((decode (c ∷ s)).1 ≤ length (c ∷ s))
      × ((0xffff < (decode (c ∷ s)).0) → 4 ≤ (decode (c ∷ s)).1)

-- a round at a text takes a byte, and no more units than it takes bytes or than there are
abbrev IsRound : Bytes → ℕ × ℕ → Type 0
IsRound s (n, k) = (1 ≤ k) × (n ≤ k) × (n ≤ length s)

escaped-IsRound :
    (o : Option ℕ) (low : Bool) (c d : ℕ) (s : Bytes) → IsRound (c ∷ d ∷ s) (escaped o low)
escaped-IsRound none low c d s = (omega arith, omega arith, omega arith)
escaped-IsRound (some cp) low c d s = elim (Bool-cases (is_high cp && low)) [
  | inl h ↦ rw h (omega arith, omega arith, omega arith)
  | inr h ↦ rw h (omega arith, omega arith, omega arith)
]

rune_units-IsRound :
    (s : Bytes) (r size : ℕ)
    → 1 ≤ size
    → size ≤ length s
    → (0xffff < r → 4 ≤ size)
    → ((decode : Bytes → ℕ × ℕ) → IsRound s (rune_units decode (r, size)))
rune_units-IsRound s r size one most wide decode = elim (Bool-cases (eqb r 0xfffd && eqb size 1)) [
  | inl e ↦ rw e (omega arith, omega arith, omega (arith, one, most))
  | inr e ↦ elim (Bool-cases (ltb 0xffff r)) [
    | inl f ↦
        let four : 4 ≤ size = wide (ground arith) in
        rw (e, f) (omega (arith, four), omega (arith, four), omega (arith, four, most))
    | inr f ↦ rw (e, f) (one, one, omega (arith, one, most))
  ]
]

module _ (decode : Bytes → ℕ × ℕ) (decoder : IsDecoder decode) where
  decoded-IsRound : (c : ℕ) (s : Bytes) → IsRound (c ∷ s) (rune_units decode (decode (c ∷ s)))
  unfolding IsDecoder
  decoded-IsRound c s =
      rune_units-IsRound (c ∷ s) (decode (c ∷ s)).0 (decode (c ∷ s)).1 (decoder c s).0
        (decoder c s).1 (decoder c s).2 decode

  round-IsRound : (c : ℕ) (s : Bytes) → IsRound (c ∷ s) (round decode (c ∷ s))
  unfolding round unicode_escape
  round-IsRound c [] = decoded-IsRound c []
  round-IsRound c (d ∷ s) = elim (Bool-cases (eqb c 92)) [
    | inr e ↦ rw e (decoded-IsRound c (d ∷ s))
    | inl e ↦ rw e (elim (Bool-cases (is_short_escape d)) [
      | inl f ↦ rw f (omega arith, omega arith, omega arith)
      | inr f ↦ rw f (elim (Bool-cases (eqb d 117)) [
        | inl g ↦ rw g (escaped-IsRound (hex4 s) (is_low_escape (drop 4 s)) c d s)
        | inr g ↦ rw g (omega arith, omega arith, omega arith)
      ])
    ])
  ]

  units-le : (fuel : ℕ) (s : Bytes) → units decode fuel s ≤ length s
  unfolding units
  units-le zero s = omega arith
  units-le (suc fuel) [] = omega arith
  units-le (suc fuel) (c ∷ s) =
      let k = (round decode (c ∷ s)).1 in
      let r = round-IsRound c s in
      omega (arith, r.0, r.1, r.2, units-le fuel (drop k (c ∷ s)), length-drop k (c ∷ s))

  units-empty : (fuel : ℕ) → units decode fuel [] ≡ 0
  unfolding units
  units-empty zero = refl
  units-empty (suc fuel) = refl

  units-enough :
      (fuel other : ℕ) (s : Bytes)
      → length s ≤ fuel
      → length s ≤ other
      → units decode fuel s ≡ units decode other s
  unfolding units
  units-enough fuel other [] h g = units-empty fuel ∙ sym (units-empty other)
  units-enough zero other (c ∷ s) h g = absurd (omega arith)
  units-enough (suc fuel) zero (c ∷ s) h g = absurd (omega arith)
  units-enough (suc fuel) (suc other) (c ∷ s) h g =
      let k = (round decode (c ∷ s)).1 in
      let one : 1 ≤ k = (round-IsRound c s).0 in
      ap (λ (n : ℕ). (round decode (c ∷ s)).0 + n)
        (units-enough fuel other (drop k (c ∷ s)) (omega (arith, h, one, length-drop k (c ∷ s)))
          (omega (arith, g, one, length-drop k (c ∷ s))))

  -- UTF16Len counts at most one code unit per byte, and as many rounds as there are bytes reach the end of the
  -- text: more fuel changes nothing. The decoder takes one byte or more, not more than there are, and four for
  -- a rune beyond the basic plane.
  pub utf16_len-le :
      (s : Bytes) (fuel : ℕ)
      → length s ≤ fuel
      → (utf16_len decode s ≤ length s) × (units decode fuel s ≡ utf16_len decode s)
  unfolding utf16_len
  utf16_len-le s fuel h = (units-le (length s) s, units-enough fuel (length s) s h (omega arith))
