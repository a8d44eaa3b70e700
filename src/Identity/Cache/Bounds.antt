-- ===== src/Identity/Cache/Bounds.antt =====
-- The store never holds more than its cap.
use ocfp.Prelude.{
  ℕ, suc, ◌≤◌, ◌<◌, ◌≡◌, refl, sym, ap, some, [], ◌∷◌, Bytes, ltb, leb, length, arith, subst, ◌⊎◌,
  ◌==◌, Bool-cases, Option-cases, inl, inr, eq_refl,
}
use ocfp.Prelude.GoMap
use ocfp.Prelude.GoMap.{Map}
use ocfp.Identity.Cache.{Entry, Cache, oldest_from, oldest, make_room, get_or_create, drop_before}

pub length-put : (k : Bytes) (e : Entry) (m : Map Entry) → length (GoMap.put k e m) ≤ suc (length m)
unfolding GoMap.put
length-put k e [] = omega arith
length-put k e ((j, f) ∷ m) = ground (arith, length-put k e m)

length-put_known :
    (k : Bytes) (e f : Entry) (m : Map Entry)
    → GoMap.get k m ≡ some f
    → length (GoMap.put k e m) ≡ length m
unfolding GoMap.put GoMap.get
length-put_known k e f [] h = cc
length-put_known k e f ((j, g) ∷ m) h = elim (Bool-cases (j == k)) [
  | inl p ↦ rw p refl
  | inr p ↦ rw p (ap suc (length-put_known k e f m (ground arith)))
]

length-delete : (k : Bytes) (m : Map Entry) → length (GoMap.delete k m) ≤ length m
unfolding GoMap.delete
length-delete k [] = omega arith
length-delete k ((j, f) ∷ m) = ground (arith, length-delete k m)

Has : Bytes → Map Entry → Type 0
Has k m = (f : Entry) × (GoMap.get k m ≡ some f)

length-delete_known :
    (k : Bytes) (m : Map Entry) (f : Entry)
    → GoMap.get k m ≡ some f
    → length (GoMap.delete k m) < length m
unfolding GoMap.delete GoMap.get
length-delete_known k [] f h = cc
length-delete_known k ((j, g) ∷ m) f h =
    ground (arith, length-delete k m, length-delete_known k m f)

Has-cons : (k j : Bytes) (f : Entry) (m : Map Entry) → Has k m → Has k ((j, f) ∷ m)
unfolding Has GoMap.get
Has-cons k j f m (g, h) = elim (Bool-cases (j == k)) [
  | inl p ↦ (f, rw p refl)
  | inr p ↦ (g, rw p h)
]

Has-head : (k : Bytes) (f : Entry) (m : Map Entry) → Has k ((k, f) ∷ m)
unfolding Has GoMap.get
Has-head k f m = (f, rw (eq_refl k) refl)

oldest_from-Has :
    (key : Bytes) (e : Entry) (m : Map Entry)
    → (oldest_from key e m ≡ key) ⊎ Has (oldest_from key e m) m
unfolding oldest_from
oldest_from-Has key e [] = inl refl
oldest_from-Has key e ((k, f) ∷ m) = elim (Bool-cases (ltb f.last_used e.last_used)) [
  | inl p ↦ rw p (elim (oldest_from-Has k f m) [
    | inl same ↦ inr (subst (λ j. Has j ((k, f) ∷ m)) (sym same) (Has-head k f m))
    | inr h ↦ inr (Has-cons _ k f m h)
  ])
  | inr p ↦
      rw p
        (elim (oldest_from-Has key e m) [ inl same ↦ inl same | inr h ↦ inr (Has-cons _ k f m h) ])
]

oldest-Has : (k : Bytes) (e : Entry) (m : Map Entry) → Has (oldest ((k, e) ∷ m)) ((k, e) ∷ m)
oldest-Has k e m = elim (oldest_from-Has k e m) [
  | inl same ↦ subst (λ j. Has j ((k, e) ∷ m)) (sym same) (Has-head k e m)
  | inr h ↦ Has-cons _ k e m h
]

length-delete-oldest :
    (m : Map Entry) → 0 < length m → length (GoMap.delete (oldest m) m) < length m
unfolding Has
length-delete-oldest [] h = omega (arith, h)
length-delete-oldest ((k, e) ∷ m) h =
    let found = oldest-Has k e m in
    length-delete_known (oldest ((k, e) ∷ m)) ((k, e) ∷ m) found.0 found.1

length-make_room : (c : Cache) → 0 < c.max → length c.entries ≤ c.max → length (make_room c) < c.max
unfolding make_room
length-make_room c positive bound = elim (Bool-cases (leb c.max (length c.entries))) [
  | inl p ↦ rw p (
      let full : c.max ≤ length c.entries = ground arith in
      omega (arith, full, bound, length-delete-oldest c.entries (omega arith)))
  | inr p ↦ rw p (ground arith)
]

unfoldable pub IsBounded : Cache → Type 0
IsBounded c = (0 < c.max) × (length c.entries ≤ c.max)

-- Answering a key, one that is known or not, keeps the number of entries within a cap above 0.
pub get_or_create-IsBounded :
    (c : Cache) (now : ℕ) (key fresh : Bytes)
    → IsBounded c
    → IsBounded (get_or_create c now key fresh).0
unfolding get_or_create IsBounded
get_or_create-IsBounded c now key fresh (positive, bound) =
    elim (Option-cases (GoMap.get key c.entries)) [
      | inl none_yet ↦ rw none_yet (
        positive,
        omega (
          arith,
          length-put key (record { id = fresh; last_used = now }) (make_room c),
          length-make_room c positive bound,
        ),
      )
      | inr (e, known) ↦ rw known (
        positive,
        omega (
          arith,
          bound,
          length-put_known key (record { id = e.id; last_used = now }) e c.entries known,
        ),
      )
    ]

pub length-drop_before : (cutoff : ℕ) (m : Map Entry) → length (drop_before cutoff m) ≤ length m
unfolding drop_before
length-drop_before cutoff [] = omega arith
length-drop_before cutoff ((k, e) ∷ m) = ground (arith, length-drop_before cutoff m)
