-- ===== src/Config/Interpolate/Segments.antt =====
-- Interpolation against its meaning on literal texts and references.
use ocfp.Prelude.{
  ℕ, suc, ◌+◌, ◌≡◌, refl, ap, ◌∙◌, Bool, true, false, Option, none, some, List, [], ◌∷◌, ◌++◌,
  Bytes, eqb, length, arith, if◌then◌else◌, Bool-cases, inl, inr,
}
use ocfp.Config.Validate.{is_empty}
use ocfp.Config.Validate.Sets.{All}
use ocfp.Config.Interpolate.{
  Interpolated, write, before_byte, opens, expand_name, reference, interpolate_from, interpolate,
}

pub data Segment : Type 0 where
  literal : Bytes → Segment
  variable : Bytes → Segment

-- the document that the segments spell
abbrev pub render : List Segment → Bytes
render [] = []
render (Segment.literal s ∷ rest) = s ++ render rest
render (Segment.variable name ∷ rest) = b'$' ∷ b'{' ∷ (name ++ b'}' ∷ render rest)

abbrev pub occurs : ℕ → Bytes → Bool
occurs c [] = false
occurs c (b ∷ s) = if eqb b c then true else occurs c s

-- A literal has no dollar sign; a name has no brace and is not empty.
abbrev pub IsSegment : Segment → Type 0
IsSegment (Segment.literal s) = occurs b'$' s ≡ false
IsSegment (Segment.variable name) = (occurs b'}' name ≡ false) × (is_empty name ≡ false)

write-nil : (x : Interpolated) → write [] x ≡ x
unfolding write
write-nil (Interpolated.text t) = refl
write-nil Interpolated.unclosed = refl
write-nil Interpolated.empty_name = refl
write-nil (Interpolated.unset name) = refl

write-cons : (b : ℕ) (s : Bytes) (x : Interpolated) → write (b ∷ []) (write s x) ≡ write (b ∷ s) x
unfolding write
write-cons b s (Interpolated.text t) = refl
write-cons b s Interpolated.unclosed = refl
write-cons b s Interpolated.empty_name = refl
write-cons b s (Interpolated.unset name) = refl

opens_other : (b : ℕ) (s : Bytes) → eqb b b'$' ≡ false → opens b s ≡ false
unfolding opens
opens_other b [] h = refl
opens_other b (c ∷ s) h = ground arith

-- a text in front of a document, where there is one
abbrev pub in_front : Bytes → Interpolated → Interpolated
in_front s (Interpolated.text t) = Interpolated.text (s ++ t)
in_front s e = e

-- what a reference stands for, with what stands behind it: without a value, the error that names it
abbrev pub valued : Bytes → Option Bytes → Interpolated → Interpolated
valued name none rest = Interpolated.unset name
valued name (some v) rest = in_front v rest

write-in_front : (s : Bytes) (x : Interpolated) → write s x ≡ in_front s x
unfolding write
write-in_front s (Interpolated.text t) = refl
write-in_front s Interpolated.unclosed = refl
write-in_front s Interpolated.empty_name = refl
write-in_front s (Interpolated.unset name) = refl

expand_name-valued :
    (name : Bytes) (o : Option Bytes) (x : Interpolated) → expand_name name o x ≡ valued name o x
unfolding expand_name
expand_name-valued name none x = refl
expand_name-valued name (some v) x = write-in_front v x

module _ (lookup_env : Bytes → Option Bytes) where
  -- what the segments stand for: the first variable that is not set is the error
  abbrev pub meaning : List Segment → Interpolated
  meaning [] = Interpolated.text []
  meaning (Segment.literal s ∷ rest) = in_front s (meaning rest)
  meaning (Segment.variable name ∷ rest) = valued name (lookup_env name) (meaning rest)

  before_byte-append :
      (c : ℕ) (s t : Bytes) → occurs c s ≡ false → before_byte c (s ++ c ∷ t) ≡ some s
  unfolding before_byte
  before_byte-append c [] t h = ground arith
  before_byte-append c (b ∷ s) t h = ground (arith, before_byte-append c s t)

  write_literal :
      (s t : Bytes)
      → occurs b'$' s ≡ false
      → interpolate_from lookup_env 0 (s ++ t) ≡ write s (interpolate_from lookup_env 0 t)
  unfolding interpolate_from write opens
  write_literal [] t h = rw (write-nil (interpolate_from lookup_env 0 t)) refl
  write_literal (b ∷ s) t h = elim (Bool-cases (eqb b b'$')) [
    | inl e ↦ absurd (ground arith)
    | inr e ↦
        rw (opens_other b (s ++ t) e, interpolate_from)
          (ap (write (b ∷ [])) (write_literal s t (rw e at h))
            ∙ write-cons b s (interpolate_from lookup_env 0 t))
  ]

  covered :
      (name t : Bytes)
      → interpolate_from lookup_env (suc (length name)) (name ++ b'}' ∷ t)
        ≡ interpolate_from lookup_env 0 t
  unfolding interpolate_from
  covered [] t = refl
  covered (b ∷ name) t = covered name t

  behind_reference :
      (name t : Bytes)
      → interpolate_from lookup_env (length name + 2) (b'{' ∷ (name ++ b'}' ∷ t))
        ≡ interpolate_from lookup_env 0 t
  unfolding interpolate_from
  behind_reference name t =
      let two : length name + 2 ≡ suc (suc (length name)) = omega arith in
      ap (λ n. interpolate_from lookup_env n (b'{' ∷ (name ++ b'}' ∷ t))) two ∙ covered name t

  -- Interpolate gives a document that literals without a dollar sign and references with a name spell
  -- what it stands for: each value in its place, written once and not expanded again, or the error for
  -- the first variable that is not set.
  pub interpolate-render :
      (segments : List Segment)
      → All IsSegment segments
      → interpolate lookup_env (render segments) ≡ meaning segments
  unfolding interpolate interpolate_from opens reference
  interpolate-render [] h = refl
  interpolate-render (Segment.literal s ∷ rest) (h, hs) =
      write_literal s (render rest) h
      ∙ ap (write s) (interpolate-render rest hs)
      ∙ write-in_front s (meaning rest)
  interpolate-render (Segment.variable name ∷ rest) ((h, n), hs) =
      rw (before_byte-append b'}' name (render rest) h, n)
        (ap (expand_name name (lookup_env name))
            (behind_reference name (render rest) ∙ interpolate-render rest hs)
          ∙ expand_name-valued name (lookup_env name) (meaning rest))
