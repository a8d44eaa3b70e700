-- ===== src/Routing/Fingerprint.antt =====
-- The fingerprint determines the shape that rotation state means: strategy, route, ordered
-- membership and, where they are read, weights.
use ocfp.Prelude.{
  has_control_byte, ◌≡◌, refl, sym, ap, ◌∙◌, Bool, true, false, List, [], ◌∷◌, ◌++◌, Bytes, arith,
  length, map,
}
use ocfp.Prelude.Int.{ℤ, pos}
use ocfp.Prelude.Decimal.{itoa, itoa_injective, itoa_clean}
use ocfp.Config.File.{Route}
use ocfp.Config.Validate.Sets.{All}
use ocfp.Config.Runtime.{Runtime}
use ocfp.Routing.{normalized, is_weighted, weight_of, members, scheduler_fingerprint}

-- What may follow a field: nothing, or a NUL and more.
abbrev pub IsTail : Bytes → Type 0
IsTail [] = Unit
IsTail (c ∷ s) = c ≡ 0

abbrev pub IsClean : Bytes → Type 0
IsClean s = has_control_byte s ≡ false

split_field :
    (s t u v : Bytes)
    → IsClean s
    → IsClean t
    → IsTail u
    → IsTail v
    → s ++ u ≡ t ++ v
    → (s ≡ t) × (u ≡ v)
unfolding has_control_byte
split_field [] [] u v hs ht hu hv e = (refl, e)
split_field [] (b ∷ t) [] v hs ht hu hv e = cc
split_field [] (b ∷ t) (c ∷ u) v hs ht hu hv e = ground arith
split_field (a ∷ s) [] u [] hs ht hu hv e = cc
split_field (a ∷ s) [] u (c ∷ v) hs ht hu hv e = ground arith
split_field (a ∷ s) (b ∷ t) u v hs ht hu hv e = ground (arith, split_field s t u v)

members-IsTail : (rt : Runtime) (w : Bool) (ids : List Bytes) → IsTail (members rt w ids)
unfolding members
members-IsTail rt w [] = tt
members-IsTail rt w (id ∷ ids) = refl

weights : Runtime → List Bytes → List ℤ
weights rt ids = map (weight_of rt) ids

plain_members :
    (rt rt' : Runtime) (ids ids' : List Bytes)
    → All IsClean ids
    → All IsClean ids'
    → members rt false ids ≡ members rt' false ids'
    → ids ≡ ids'
unfolding members
plain_members rt rt' [] [] c c' e = refl
plain_members rt rt' [] (i ∷ is) c c' e = cc
plain_members rt rt' (i ∷ is) [] c c' e = cc
plain_members rt rt' (i ∷ is) (j ∷ js) c c' e =
    let (same, rest) =
      split_field i j (members rt false is) (members rt' false js) c.0 c'.0
        (members-IsTail rt false is) (members-IsTail rt' false js) (cc) in
    cc (same, plain_members rt rt' is js c.1 c'.1 rest)

weighted_members :
    (rt rt' : Runtime) (ids ids' : List Bytes)
    → All IsClean ids
    → All IsClean ids'
    → members rt true ids ≡ members rt' true ids'
    → (ids ≡ ids') × (map (weight_of rt) ids ≡ map (weight_of rt') ids')
unfolding members
weighted_members rt rt' [] [] c c' e = (refl, refl)
weighted_members rt rt' [] (i ∷ is) c c' e = cc
weighted_members rt rt' (i ∷ is) [] c c' e = cc
weighted_members rt rt' (i ∷ is) (j ∷ js) c c' e =
    let w = itoa (weight_of rt i) in
    let v = itoa (weight_of rt' j) in
    let (same, rest) =
      split_field i j (0 ∷ w ++ members rt true is) (0 ∷ v ++ members rt' true js) c.0 c'.0 refl
        refl (cc) in
    let (same_weight, more) =
      split_field w v (members rt true is) (members rt' true js) (itoa_clean (weight_of rt i))
        (itoa_clean (weight_of rt' j)) (members-IsTail rt true is) (members-IsTail rt' true js)
        (cc) in
    let (ids_same, weights_same) = weighted_members rt rt' is js c.1 c'.1 more in
    (cc, cc (itoa_injective (weight_of rt i) (weight_of rt' j) same_weight))

-- What the state of a route means: its strategy, its id, its members in order, and their weights if
-- the strategy reads them.
abbrev pub SameShape : Runtime → Route → Runtime → Route → Type 0
SameShape rt r rt' r' =
    (normalized r.strategy ≡ normalized r'.strategy)
    × (r.id ≡ r'.id)
    × (r.egress ≡ r'.egress)
    × (is_weighted (normalized r.strategy) ≡ true
        → map (weight_of rt) r.egress ≡ map (weight_of rt') r'.egress)

-- A route whose texts hold no control byte.
pub record IsPlain (r : Route) : Type 0 where
  pub strategy : IsClean (normalized r.strategy)
  pub id : IsClean r.id
  pub egress : All IsClean r.egress

members_determine :
    (rt rt' : Runtime) (w : Bool) (ids ids' : List Bytes)
    → All IsClean ids
    → All IsClean ids'
    → members rt w ids ≡ members rt' w ids'
    → (ids ≡ ids') × (w ≡ true → map (weight_of rt) ids ≡ map (weight_of rt') ids')
members_determine rt rt' false ids ids' c c' e =
    (plain_members rt rt' ids ids' c c' e, λ h. absurd (cc))
members_determine rt rt' true ids ids' c c' e =
    let (a, b) = weighted_members rt rt' ids ids' c c' e in (a, λ _. b)

-- Routes of any two snapshots, their ids, members and strategies free of control bytes, that have the
-- same fingerprint have the same strategy (an unset one counts as round_robin), the same id, the same
-- members in the same order, and under weighted round robin the same weights.
pub fingerprint-SameShape :
    (rt rt' : Runtime) (r r' : Route)
    → IsPlain r
    → IsPlain r'
    → scheduler_fingerprint r rt ≡ scheduler_fingerprint r' rt'
    → SameShape rt r rt' r'
unfolding scheduler_fingerprint
fingerprint-SameShape rt rt' r r' p p' h =
    let s = normalized r.strategy in
    let s' = normalized r'.strategy in
    let m = members rt (is_weighted s) r.egress in
    let m' = members rt' (is_weighted s') r'.egress in
    let l = itoa (pos (length r.egress)) in
    let l' = itoa (pos (length r'.egress)) in
    let (same_strategy, h₁) =
      split_field s s' (0 ∷ (r.id ++ 0 ∷ (l ++ m))) (0 ∷ (r'.id ++ 0 ∷ (l' ++ m'))) p.strategy
        p'.strategy refl refl h in
    let (same_id, h₂) =
      split_field r.id r'.id (0 ∷ (l ++ m)) (0 ∷ (l' ++ m')) p.id p'.id refl refl (cc) in
    let (_, h₃) =
      split_field l l' m m' (itoa_clean (pos (length r.egress)))
        (itoa_clean (pos (length r'.egress))) (members-IsTail rt (is_weighted s) r.egress)
        (members-IsTail rt' (is_weighted s') r'.egress) (cc) in
    let (same_members, same_weights) =
      members_determine rt rt' (is_weighted s) r.egress r'.egress p.egress p'.egress
        (h₃ ∙ ap (λ t. members rt' (is_weighted t) r'.egress) (sym same_strategy)) in
    (same_strategy, same_id, same_members, same_weights)

members_same :
    (rt rt' : Runtime) (w : Bool) (ids : List Bytes)
    → (w ≡ true → map (weight_of rt) ids ≡ map (weight_of rt') ids)
    → members rt w ids ≡ members rt' w ids
unfolding members
members_same rt rt' w [] h = refl
members_same rt rt' false (id ∷ ids) h =
    ap (λ t. 0 ∷ id ++ t) (members_same rt rt' false ids (λ e. absurd (cc)))
members_same rt rt' true (id ∷ ids) h =
    let both = h refl in
    let first : weight_of rt id ≡ weight_of rt' id = cc in
    let more : map (weight_of rt) ids ≡ map (weight_of rt') ids = cc in
    cc (first, members_same rt rt' true ids (λ _. more))

-- The other way round: routes of the same shape, of whatever snapshots, have the same fingerprint.
pub SameShape-fingerprint :
    (rt rt' : Runtime) (r r' : Route)
    → SameShape rt r rt' r'
    → scheduler_fingerprint r rt ≡ scheduler_fingerprint r' rt'
unfolding scheduler_fingerprint
SameShape-fingerprint rt rt' r r' (a, b, c, d) =
    let w = is_weighted (normalized r.strategy) in
    let tails : members rt w r.egress ≡ members rt' w r'.egress =
      members_same rt rt' w r.egress (λ e. d e ∙ ap (map (weight_of rt')) (sym c))
      ∙ ap (members rt' w) c in
    let weighted : w ≡ is_weighted (normalized r'.strategy) = ap is_weighted a in
    cc (a, b, c, tails, weighted)
