-- ===== src/Upstream/Lines/Cut.antt =====
-- The lines that the reader of ScanLines cuts its bytes into.
use ocfp.Prelude.{
  ℕ, ◌≡◌, refl, sym, ap, ◌∙◌, Bool, false, ◌||◌, List, [], ◌∷◌, ◌++◌, Bytes, eqb, arith, Bool-cases,
  inl, inr,
}
use mathlib.Core.List.{append_assoc}
use ocfp.Config.Validate.Sets.{All}
use ocfp.Upstream.Lines.{newline, unlines, onto_first, cut_lines}

abbrev pub has_newline : Bytes → Bool
has_newline [] = false
has_newline (c ∷ s) = eqb c newline || has_newline s

pub unlines-append : (xs ys : List Bytes) → unlines (xs ++ ys) ≡ unlines xs ++ unlines ys
unlines-append [] ys = refl
unlines-append (x ∷ xs) ys =
    ap (λ (t : Bytes). x ++ newline ∷ t) (unlines-append xs ys)
    ∙ sym (append_assoc x (newline ∷ unlines xs) (unlines ys))

abbrev joined : List Bytes × Bytes → Bytes
joined (lines, rest) = unlines lines ++ rest

joined-onto_first : (c : ℕ) (p : List Bytes × Bytes) → joined (onto_first c p) ≡ c ∷ joined p
joined-onto_first c ([], rest) = refl
joined-onto_first c (line ∷ lines, rest) = refl

pub cut_lines_join : (s : Bytes) → joined (cut_lines s) ≡ s
unfolding cut_lines
cut_lines_join [] = refl
cut_lines_join (c ∷ s) = elim (Bool-cases (eqb c newline)) [
  | inl e ↦
      let same : c ≡ newline = ground arith in
      rw (e) (rw same (ap (λ (t : Bytes). newline ∷ t) (cut_lines_join s)))
  | inr e ↦ rw e (joined-onto_first c (cut_lines s) ∙ ap (λ (t : Bytes). c ∷ t) (cut_lines_join s))
]

-- Every line is whole: it holds no newline, nor does the rest.
abbrev pub AreWhole : List Bytes → Type 0
AreWhole = All (λ line. has_newline line ≡ false)

unfoldable pub AreCut : List Bytes × Bytes → Type 0
AreCut (lines, rest) = AreWhole lines × (has_newline rest ≡ false)

onto_first-AreCut :
    (c : ℕ) (p : List Bytes × Bytes) → eqb c newline ≡ false → AreCut p → AreCut (onto_first c p)
unfolding AreCut
onto_first-AreCut c ([], rest) e (w, r) = (tt, ground arith)
onto_first-AreCut c (line ∷ lines, rest) e ((l, w), r) = ((ground arith, w), r)

pub cut_lines-AreCut : (s : Bytes) → AreCut (cut_lines s)
unfolding cut_lines AreCut
cut_lines-AreCut [] = (tt, refl)
cut_lines-AreCut (c ∷ s) = elim (Bool-cases (eqb c newline)) [
  | inl e ↦ rw e ((refl, (cut_lines-AreCut s).0), (cut_lines-AreCut s).1)
  | inr e ↦ rw e (onto_first-AreCut c (cut_lines s) e (cut_lines-AreCut s))
]

pub AreWhole-join : (xs ys : List Bytes) → AreWhole xs → AreWhole ys → AreWhole (xs ++ ys)
AreWhole-join [] ys p q = q
AreWhole-join (x ∷ xs) ys (h, p) q = (h, AreWhole-join xs ys p q)

pub AreWhole-prefix : (xs ys : List Bytes) → AreWhole (xs ++ ys) → AreWhole xs
AreWhole-prefix [] ys p = tt
AreWhole-prefix (x ∷ xs) ys (h, p) = (h, AreWhole-prefix xs ys p)
