-- ===== src/Config/Interpolate.antt =====
-- Interpolate of internal/config/file.go: ${VAR} references in a document, before it is parsed. The
-- environment is a parameter (lookupEnv of internal/config/env.go asks the operating system).
pub mod Segments
use ocfp.Prelude.{
  ℕ, zero, suc, ◌+◌, Bool, true, false, ◌&&◌, Option, none, some, [], ◌∷◌, ◌++◌, Bytes, eqb, length,
  if◌then◌else◌,
}
use ocfp.Config.Validate.{is_empty}

pub data Interpolated : Type 0 where
  text : Bytes → Interpolated
  unclosed empty_name : Interpolated
  unset : Bytes → Interpolated

-- out.WriteString(s), then the rest of the loop
unfoldable pub write : Bytes → Interpolated → Interpolated
write s (Interpolated.text t) = Interpolated.text (s ++ t)
write s Interpolated.unclosed = Interpolated.unclosed
write s Interpolated.empty_name = Interpolated.empty_name
write s (Interpolated.unset name) = Interpolated.unset name

-- s[:i] for the index i of the first byte c, where there is one
unfoldable pub before_byte : ℕ → Bytes → Option Bytes
before_byte c [] = none
before_byte c (b ∷ s) =
    let rest = before_byte c s in
    if eqb b c then some [] else elim rest [ none ↦ none | some t ↦ some (b ∷ t) ]

unfoldable pub opens : ℕ → Bytes → Bool
opens c [] = false
opens c (d ∷ s) = eqb c b'$' && eqb d b'{'

abbrev pub after_first : Bytes → Bytes
after_first [] = []
after_first (c ∷ s) = s

unfoldable pub expand_name : Bytes → Option Bytes → Interpolated → Interpolated
unfolding write
expand_name name none rest = Interpolated.unset name
expand_name name (some v) rest = write v rest

module _ (lookup_env : Bytes → Option Bytes) where
  -- the reference that "${" opens, up to what may be its brace; `rest` continues behind a name
  unfoldable pub reference : Option Bytes → (ℕ → Interpolated) → Interpolated
  unfolding expand_name
  reference none rest = Interpolated.unclosed
  reference (some name) rest =
      if is_empty name
      then Interpolated.empty_name
      else expand_name name (lookup_env name) (rest (length name))

  -- the loop at the bytes that are left, `skip` of which a reference has covered
  unfoldable pub interpolate_from : ℕ → Bytes → Interpolated
  unfolding write
  interpolate_from skip [] = Interpolated.text []
  interpolate_from (suc skip) (c ∷ s) = interpolate_from skip s
  interpolate_from zero (c ∷ s) = elim (opens c s) [
    | true ↦ reference (before_byte b'}' (after_first s)) (λ n. interpolate_from (n + 2) s)
    | false ↦ write (c ∷ []) (interpolate_from 0 s)
  ]

  unfoldable pub interpolate : Bytes → Interpolated
  interpolate raw = interpolate_from 0 raw
