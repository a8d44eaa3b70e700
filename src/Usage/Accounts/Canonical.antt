-- ===== src/Usage/Accounts/Canonical.antt =====
-- Canonical folds the cache into the prompt once: what it returns is canonical.
use ocfp.Prelude.{◌≡◌, refl, ap, Bool, true, false, none, some, [], ◌∷◌, bytes, if◌then◌else◌, ◌==◌}
use ocfp.Prelude.GoMap
use ocfp.Prelude.GoMap.{Map}
use ocfp.Jsonx.{Json, read, get, as_obj}
use ocfp.Usage.{Numbers, is_finite, num_ok, num, first_non_null}
use ocfp.Usage.Accounts.{
  canonical, canonical_of, put_reasoning, folded, is_split, creation_of, completion_of,
}

module _ {F : Type 0} (numbers : Numbers F) where
  num-number : (f : F) → is_finite numbers f ≡ true → num numbers (Json.number f) ≡ f
  unfolding num num_ok
  num-number f h =
      ap
        (λ (b : Bool). elim (if b then some f else none) [
          | none ↦ numbers.floats.zero
          | some g ↦ g
        ])
        h

  num-null : num numbers Json.null ≡ numbers.floats.zero
  unfolding num num_ok
  num-null = refl

  -- the counts of an account are finite
  unfoldable pub AreFinite : (prompt completion cached creation : F) → Type 0
  AreFinite p c h w =
      (is_finite numbers p ≡ true)
      × (is_finite numbers c ≡ true)
      × (is_finite numbers h ≡ true)
      × (is_finite numbers w ≡ true)

  -- an account, by whether it has a reasoning count
  built : Bool → (p c h w r : F) → Map (Json F)
  built b p c h w r = put_reasoning numbers b r (
      (bytes "prompt_tokens", Json.number p)
      ∷ (bytes "completion_tokens", Json.number c)
      ∷ (bytes "total_tokens", Json.number (numbers.floats.add p c))
      ∷ (bytes "cached_tokens", Json.number h)
      ∷ (bytes "cache_creation_input_tokens", Json.number w)
      ∷ [])

  built-canonical :
      (b : Bool) (p c h w r : F)
      → AreFinite p c h w
      → numbers.floats.lt numbers.floats.zero r ≡ b
      → (b ≡ true → is_finite numbers r ≡ true)
      → numbers.floats.lt numbers.floats.zero numbers.floats.zero ≡ false
      → canonical_of numbers (built b p c h w r) ≡ built b p c h w r
  unfolding AreFinite built read get as_obj first_non_null GoMap.get GoMap.put ◌==◌
  built-canonical true p c h w r (fp, fc, fh, fw) e g z =
      rw (num-number p fp, num-number c fc, num-number h fh, num-number w fw, num-number r (g refl))
        (rw e refl)
  built-canonical false p c h w r (fp, fc, fh, fw) e g z =
      rw (num-number p fp, num-number c fc, num-number h fh, num-number w fw, num-null) (rw z refl)

  -- the counts that a report canonicalizes to are finite
  unfoldable pub HasFiniteCounts : Map (Json F) → Type 0
  HasFiniteCounts u =
      AreFinite (folded numbers (is_split numbers u) u).0 (completion_of numbers u)
        (folded numbers (is_split numbers u) u).1 (creation_of numbers u)
      × (is_finite numbers (num numbers (read u (bytes "reasoning_tokens"))) ≡ true)

  -- A canonical report stays as it is: Canonical folds a cache into the prompt once only. The counts that the
  -- report yields are finite, and 0 < 0 is false.
  pub canonical-canonical :
      (u : Map (Json F))
      → HasFiniteCounts u
      → numbers.floats.lt numbers.floats.zero numbers.floats.zero ≡ false
      → canonical numbers (canonical numbers (some u)) ≡ canonical numbers (some u)
  unfolding canonical HasFiniteCounts built
  canonical-canonical u (finite, r) z = ap some (
      built-canonical _ (folded numbers (is_split numbers u) u).0 (completion_of numbers u)
        (folded numbers (is_split numbers u) u).1 (creation_of numbers u)
        (num numbers (read u (bytes "reasoning_tokens"))) finite refl (λ e. r) z)
