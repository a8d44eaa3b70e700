-- ===== src/Upstream/Redirects/Away.antt =====
-- When a target of a redirect chain is on another domain than the first, and that parsing its text again does
-- not change this.
use ocfp.Prelude.{
  eqb, eq→≡, subst, ◌++◌, ap, ◌∙◌, ◌≡◌, ◌⊎◌, inl, inr, refl, Bool, true, false, not, ◌&&◌, [], ◌∷◌,
  Bytes, ◌==◌, arith, Bool-cases,
}
use ocfp.Upstream.Redirects.{Target, same_domain_or_sub, has_colon_or_percent}

-- The target is on another domain than the chain's first.
abbrev pub is_away : Target → Target → Bool
is_away first t = not (t.host == first.host) && not (same_domain_or_sub t.hostname first.hostname)

abbrev pub ends_colon : Bytes → Bool
ends_colon [] = false
ends_colon (c ∷ []) = eqb c b':'
ends_colon (c ∷ d ∷ s) = ends_colon (d ∷ s)

-- What parsing the text of a resolved target again gives: the same host; or, where that ends in a colon with
-- no port behind it, the host without that colon, whose name is the same one unless that ends in a colon too.
abbrev pub IsReparsed : Target → Target → Type 0
IsReparsed next t =
    (t.host ≡ next.host) × (t.hostname ≡ next.hostname)
    ⊎ (next.host ≡ t.host ++ b':' ∷ [])
      × ((t.hostname ≡ next.hostname) ⊎ (ends_colon next.hostname ≡ true))

-- neither the host nor its name ends in a colon
abbrev pub IsPlain : Target → Type 0
IsPlain t = (ends_colon t.host ≡ false) × (ends_colon t.hostname ≡ false)

ends_colon-append : (s : Bytes) → ends_colon (s ++ b':' ∷ []) ≡ true
ends_colon-append [] = refl
ends_colon-append (c ∷ []) = refl
ends_colon-append (c ∷ d ∷ s) = ends_colon-append (d ∷ s)

ends_colon-has_colon_or_percent : (s : Bytes) → ends_colon s ≡ true → has_colon_or_percent s ≡ true
unfolding has_colon_or_percent
ends_colon-has_colon_or_percent [] e = cc
ends_colon-has_colon_or_percent (c ∷ []) e = rw e refl
ends_colon-has_colon_or_percent (c ∷ d ∷ s) e =
    ground (arith, ends_colon-has_colon_or_percent (d ∷ s) e)

differs_colon : (x y : Bytes) → ends_colon x ≡ true → ends_colon y ≡ false → x == y ≡ false
differs_colon x y e f = elim (Bool-cases (x == y)) [
  | inl h ↦ cc (e, f, ap ends_colon (eq→≡ x y h))
  | inr h ↦ h
]

-- A name that ends in a colon is in no domain that does not.
colon_outside :
    (dest parent : Bytes)
    → ends_colon dest ≡ true
    → ends_colon parent ≡ false
    → same_domain_or_sub dest parent ≡ false
unfolding same_domain_or_sub
colon_outside dest parent e f =
    rw (differs_colon dest parent e f, ends_colon-has_colon_or_percent dest e) refl

and_split : (a b : Bool) → a && b ≡ true → (a ≡ true) × (b ≡ true)
and_split true b h = (refl, h)
and_split false b h = cc

-- Whatever the second parse makes of a target: if that is away, so was the target.
pub is_away_before :
    (first next t : Target)
    → IsPlain first
    → IsReparsed next t
    → is_away first t ≡ true
    → is_away first next ≡ true
is_away_before first next t (p, q) (inl (h, n)) e = rw (← h, ← n) e
is_away_before first next t (p, q) (inr (h, n)) e =
    let colon : ends_colon next.host ≡ true = ap ends_colon h ∙ ends_colon-append t.host in
    let (_, outside) = and_split _ _ e in
    let name : not (same_domain_or_sub next.hostname first.hostname) ≡ true = elim n [
      | inl same ↦
          subst (λ (x : Bytes). not (same_domain_or_sub x first.hostname) ≡ true) same outside
      | inr ends ↦ rw (colon_outside next.hostname first.hostname ends q) refl
    ] in
    rw (differs_colon next.host first.host colon p, name) refl
