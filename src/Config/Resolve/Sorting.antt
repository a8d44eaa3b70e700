-- ===== src/Config/Resolve/Sorting.antt =====
-- The routes of a snapshot: those of the document, by falling priority, file order kept on ties.
use ocfp.Prelude.{
  ◌≡◌, refl, Bool, true, false, Option, none, some, List, [], ◌∷◌, arith, if◌then◌else◌, Bool-cases,
  inl, inr,
}
use ocfp.Prelude.Int.{◌≤ℤ◌, ltb_ℤ}
use ocfp.Config.File.{Route}
use ocfp.Config.Validate.Sets.{All, All_map}
use ocfp.Config.Resolve.{insert_route, sort_routes}

-- `r` may stand before `s`
abbrev pub Before : Route → Route → Type 0
Before r s = s.priority ≤ℤ r.priority

abbrev pub IsSorted : List Route → Type 0
IsSorted [] = Unit
IsSorted (r ∷ rs) = All (Before r) rs × IsSorted rs

-- the first route that passes a test
abbrev pub find : (Route → Bool) → List Route → Option Route
find p [] = none
find p (r ∷ rs) = if p r then some r else find p rs

insert_route-All :
    (P : Route → Type 0) (r : Route) (rs : List Route) → P r → All P rs → All P (insert_route r rs)
unfolding insert_route
insert_route-All P r [] h a = (h, tt)
insert_route-All P r (s ∷ rs) h a = elim (Bool-cases (ltb_ℤ r.priority s.priority)) [
  | inl e ↦ rw e (a.0, insert_route-All P r rs h a.1)
  | inr e ↦ rw e (h, a)
]

pub sort_routes-All : (P : Route → Type 0) (rs : List Route) → All P rs → All P (sort_routes rs)
unfolding sort_routes
sort_routes-All P [] a = tt
sort_routes-All P (r ∷ rs) a = insert_route-All P r (sort_routes rs) a.0 (sort_routes-All P rs a.1)

insert_route-IsSorted : (r : Route) (rs : List Route) → IsSorted rs → IsSorted (insert_route r rs)
unfolding insert_route
insert_route-IsSorted r [] h = (tt, tt)
insert_route-IsSorted r (s ∷ rs) h = elim (Bool-cases (ltb_ℤ r.priority s.priority)) [
  | inl e ↦
      rw e (insert_route-All (Before s) r rs (ground arith) h.0, insert_route-IsSorted r rs h.1)
  | inr e ↦
      let b : Before r s = ground arith in
      rw e ((b, All_map (Before s) (Before r) rs (λ q k. omega arith) h.0), h)
]

pub sort_routes-IsSorted : (rs : List Route) → IsSorted (sort_routes rs)
unfolding sort_routes
sort_routes-IsSorted [] = tt
sort_routes-IsSorted (r ∷ rs) = insert_route-IsSorted r (sort_routes rs) (sort_routes-IsSorted rs)

-- A test that tells two priorities apart finds the same route before and after an insertion.
insert_route-find :
    (p : Route → Bool) (r : Route) (rs : List Route)
    → ((s : Route) → p s ≡ true → p r ≡ true → ltb_ℤ r.priority s.priority ≡ false)
    → find p (insert_route r rs) ≡ find p (r ∷ rs)
unfolding insert_route
insert_route-find p r [] h = refl
insert_route-find p r (s ∷ rs) h = ground (arith, insert_route-find p r rs h, h s)

pub sort_routes-find :
    (p : Route → Bool) (rs : List Route)
    → ((r s : Route) → p s ≡ true → p r ≡ true → ltb_ℤ r.priority s.priority ≡ false)
    → find p (sort_routes rs) ≡ find p rs
unfolding sort_routes
sort_routes-find p [] h = refl
sort_routes-find p (r ∷ rs) h =
    ground (arith, insert_route-find p r (sort_routes rs) (h r), sort_routes-find p rs h)

insert_route-All_back :
    (P : Route → Type 0) (r : Route) (rs : List Route) → All P (insert_route r rs) → P r × All P rs
unfolding insert_route
insert_route-All_back P r [] a = (a.0, tt)
insert_route-All_back P r (s ∷ rs) a = elim (Bool-cases (ltb_ℤ r.priority s.priority)) [
  | inl e ↦
      let b : All P (s ∷ insert_route r rs) = rw e at a in
      let (h, t) = insert_route-All_back P r rs b.1 in (h, (b.0, t))
  | inr e ↦ let b : All P (r ∷ s ∷ rs) = rw e at a in b
]

pub sort_routes-All_back :
    (P : Route → Type 0) (rs : List Route) → All P (sort_routes rs) → All P rs
unfolding sort_routes
sort_routes-All_back P [] a = tt
sort_routes-All_back P (r ∷ rs) a =
    let (h, t) = insert_route-All_back P r (sort_routes rs) a in (h, sort_routes-All_back P rs t)
