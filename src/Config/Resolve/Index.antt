-- ===== src/Config/Resolve/Index.antt =====
-- The id index of a snapshot, and that every route of a snapshot names egresses which it holds.
use ocfp.Prelude.{
  ◌≡◌, refl, subst, ◌∙◌, Option-cases, true, false, Option, none, some, List, [], ◌∷◌, Bytes, ◌==◌,
  eq→≡, arith, Bool-cases, inl, inr,
}
use ocfp.Prelude.GoMap
use ocfp.Prelude.GoMap.{Map, get-put}
use ocfp.Config.Std.{Std}
use ocfp.Config.Error.{ok, seq-eq-ok}
use ocfp.Config.File.{File, Egress, Route}
use ocfp.Config.Validate.{is_empty, contains, egress_ids, find_egress, validate}
use ocfp.Config.Validate.Sets.{Distinct, All, All_map, contains-find_egress, find_egress-id}
use ocfp.Config.Validate.Sound.{IsValid, IsValidEgress, validate-IsValid}
use ocfp.Config.Runtime.{Runtime, egress}
use ocfp.Config.Resolve.{index_egress, snapshot, resolve}
use ocfp.Config.Resolve.Sorting.{sort_routes-All}

abbrev or_else : Option Egress → Option Egress → Option Egress
or_else none b = b
or_else (some e) b = some e

find_egress_absent :
    (es : List Egress) (k : Bytes) → contains (egress_ids es) k ≡ false → find_egress es k ≡ none
find_egress_absent es k h = ground (arith, contains-find_egress es k)

get-index_egress :
    (m : Map Egress) (es : List Egress) (k : Bytes)
    → Distinct (egress_ids es)
    → GoMap.get k (index_egress m es) ≡ or_else (find_egress es k) (GoMap.get k m)
unfolding index_egress find_egress
get-index_egress m [] k d = refl
get-index_egress m (e ∷ es) k d = elim (Bool-cases (e.id == k)) [
  | inl p ↦
      let same : e.id ≡ k = eq→≡ e.id k p in
      ground (
        arith,
        get-index_egress (GoMap.put e.id e m) es k d.1,
        find_egress_absent es k (subst (λ j. contains (egress_ids es) j ≡ false) same d.0),
        get-put e.id k e m,
      )
  | inr p ↦ ground (arith, get-index_egress (GoMap.put e.id e m) es k d.1, get-put e.id k e m)
]

or_else_empty : (o : Option Egress) (k : Bytes) → or_else o (GoMap.get k []) ≡ o
or_else_empty none k = unfold GoMap.get in refl
or_else_empty (some e) k = refl

-- In the snapshot of an accepted document an id resolves exactly to the document's egress of that
-- id.
pub egress-snapshot :
    (f : File) → IsValid f → (k : Bytes) → egress (snapshot f) k ≡ find_egress f.egress k
unfolding snapshot
egress-snapshot f v k =
    get-index_egress [] f.egress k v.egress_distinct ∙ or_else_empty (find_egress f.egress k) k

-- The reference resolves to an egress of that id which is well formed.
abbrev pub Resolves : Runtime → Bytes → Type 0
Resolves rt ref = (e : Egress) × (egress rt ref ≡ some e) × (e.id ≡ ref) × IsValidEgress e

find_egress-All :
    (P : Egress → Type 0) (es : List Egress) (k : Bytes) {e : Egress}
    → All P es
    → find_egress es k ≡ some e
    → P e
unfolding find_egress
find_egress-All P [] k a h = cc
find_egress-All P (d ∷ es) k {e} a h = elim (Bool-cases (d.id == k)) [
  | inl p ↦ let same : d ≡ e = ground arith in subst P same a.0
  | inr p ↦ find_egress-All P es k a.1 (rw p at h)
]

ref-Resolves :
    (f : File) (v : IsValid f) (ref : Bytes)
    → contains (egress_ids f.egress) ref ≡ true
    → Resolves (snapshot f) ref
ref-Resolves f v ref h = elim (Option-cases (find_egress f.egress ref)) [
  | inl e ↦ absurd (ground (arith, contains-find_egress f.egress ref))
  | inr (e, found) ↦ (
    e,
    egress-snapshot f v ref ∙ found,
    find_egress-id f.egress ref found,
    find_egress-All IsValidEgress f.egress ref v.egress found,
  )
]

-- Each route of the runtime that Resolve returns lists at least one egress and none twice, and each
-- egress that it lists is found in the runtime, under that id, with an id free of control bytes and
-- with no negative weight, cap or bound.
pub resolve-Resolves :
    (std : Std) (f : File) {rt : Runtime}
    → resolve std f ≡ ok rt
    → All
        (λ r. (is_empty r.egress ≡ false) × Distinct r.egress × All (Resolves rt) r.egress)
        rt.routes
unfolding resolve snapshot
resolve-Resolves std f {rt} h =
    let (accepted, same) = seq-eq-ok (validate std f) (ok (snapshot f)) h in
    let v = validate-IsValid std f accepted in
    let built : snapshot f ≡ rt = cc in
    subst
      (λ (t : Runtime).
        All
          (λ (r : Route).
            (is_empty r.egress ≡ false) × Distinct r.egress × All (Resolves t) r.egress)
          t.routes)
      built
      (sort_routes-All _ f.routes (
        All_map _ _ f.routes
          (λ r w. (w.nonempty, w.distinct, All_map _ _ r.egress (ref-Resolves f v) w.known))
          v.routes))
