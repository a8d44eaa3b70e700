-- ===== src/Config/Resolve/Matching.antt =====
-- Which route MatchRoute returns for a resolved document.
use ocfp.Prelude.{
  ◌≡◌, ◌↔◌, sym, ◌∙◌, refl, Bool, true, false, ◌&&◌, not, none, some, List, [], ◌∷◌, Bytes, arith,
  Bool-cases, inl, inr,
}
use ocfp.Prelude.Int.{ℤ, ◌≤ℤ◌, ltb_ℤ}
use ocfp.Config.Std.{Std}
use ocfp.Config.File.{File, Route}
use ocfp.Config.Validate.Sets.{All, All_map}
use ocfp.Config.Runtime.{first_match, match_route, match_holds}
use ocfp.Config.Resolve.{sort_routes, snapshot}
use ocfp.Config.Resolve.Sorting.{
  Before, IsSorted, find, sort_routes-All, sort_routes-All_back, sort_routes-IsSorted,
  sort_routes-find,
}

find-All :
    (p : Route → Bool) (rs : List Route) {r : Route}
    → IsSorted rs
    → find p rs ≡ some r
    → All (λ q. p q ≡ true → Before r q) rs
find-All p [] sorted h = tt
find-All p (s ∷ rs) {r} sorted h = elim (Bool-cases (p s)) [
  | inl e ↦
      let same : s ≡ r = ground arith in
      (λ _. rw same (omega arith), All_map _ _ rs (λ q b _. rw (← same) b) sorted.0)
  | inr e ↦ (λ e'. cc, find-All p rs sorted.1 (rw e at h))
]

find-none-All : (p : Route → Bool) (rs : List Route) → find p rs ≡ none → All (λ q. p q ≡ false) rs
find-none-All p [] h = tt
find-none-All p (s ∷ rs) h = elim (Bool-cases (p s)) [
  | inl e ↦ absurd (ground arith)
  | inr e ↦ (e, find-none-All p rs (rw e at h))
]

All-find-none : (p : Route → Bool) (rs : List Route) → All (λ q. p q ≡ false) rs → find p rs ≡ none
All-find-none p [] a = refl
All-find-none p (s ∷ rs) a = rw a.0 (All-find-none p rs a.1)

abbrev pub same_priority : Route → Route → Bool
same_priority r s = not (ltb_ℤ r.priority s.priority) && not (ltb_ℤ s.priority r.priority)

find_among_ties :
    (p : Route → Bool) (rs : List Route) {r : Route}
    → find p rs ≡ some r
    → find (λ q. p q && same_priority r q) rs ≡ some r
find_among_ties p [] h = cc
find_among_ties p (s ∷ rs) {r} h = ground (arith, find_among_ties p rs {r = r})

module _ (std : Std) (streaming : Bool) (body_bytes : ℤ) (model : Bytes) where
  abbrev pub holds : Route → Bool
  holds r = match_holds std r.match streaming body_bytes model

  first_match-eq-find :
      (rs : List Route) → first_match std rs streaming body_bytes model ≡ find holds rs
  unfolding first_match
  first_match-eq-find [] = refl
  first_match-eq-find (r ∷ rs) = ground (arith, first_match-eq-find rs)

  -- The route that MatchRoute returns for a resolved document has the highest priority among the
  -- document's routes that match, and is the first in file order of those of its priority.
  pub match_route_best :
      (f : File) {r : Route}
      → match_route std (snapshot f) streaming body_bytes model ≡ some r
      → All (λ q. holds q ≡ true → q.priority ≤ℤ r.priority) f.routes
        × (find (λ q. holds q && same_priority r q) f.routes ≡ some r)
  unfolding match_route snapshot
  match_route_best f {r} h =
      let found : find holds (sort_routes f.routes) ≡ some r =
        cc (first_match-eq-find (sort_routes f.routes)) in
      (
        sort_routes-All_back _ f.routes
            (find-All holds (sort_routes f.routes) (sort_routes-IsSorted f.routes) found),
        sym (sort_routes-find (λ q. holds q && same_priority r q) f.routes (λ a b. ground arith))
            ∙ find_among_ties holds (sort_routes f.routes) found,
      )

  -- MatchRoute finds no route exactly when no route of the document matches.
  pub match_route-eq-none :
      (f : File)
      → (match_route std (snapshot f) streaming body_bytes model ≡ none)
        ↔ All (λ q. holds q ≡ false) f.routes
  unfolding match_route snapshot
  match_route-eq-none f =
      let found = first_match-eq-find (sort_routes f.routes) in
      (
        λ h.
            sort_routes-All_back _ f.routes (find-none-All holds (sort_routes f.routes) (cc found)),
        λ a. found ∙ All-find-none holds (sort_routes f.routes) (sort_routes-All _ f.routes a),
      )
