-- ===== src/Identity/Cache/Stability.antt =====
-- A conversation keeps its id while the store has room and the janitor's cutoff is not past its last use.
use ocfp.Prelude.{
  ℕ, suc, ◌+◌, ◌≤◌, ◌<◌, ◌≡◌, refl, ap, ◌∙◌, false, some, List, [], ◌∷◌, Bytes, ltb, length, arith,
  ◌==◌, Bool-cases, Option-cases, inl, inr, eq_refl, eq→≡,
}
use ocfp.Prelude.GoMap
use ocfp.Prelude.GoMap.{Map, get-put}
use ocfp.Identity.Cache.{Entry, Cache, make_room, get_or_create, drop_before, evict_expired}
use ocfp.Identity.Cache.Bounds.{length-put, length-drop_before}

-- what happens to a store
pub data Use : Type 0 where
  ask : (now : ℕ) (key fresh : Bytes) → Use
  sweep : (cutoff : ℕ) → Use

pub use_on : Cache → Use → Cache
use_on c (Use.ask now key fresh) = (get_or_create c now key fresh).0
use_on c (Use.sweep cutoff) = evict_expired cutoff c

pub use_all : Cache → List Use → Cache
unfolding use_on
use_all c [] = c
use_all c (u ∷ us) = use_all (use_on c u) us

abbrev pub asks : List Use → ℕ
asks [] = 0
asks (Use.ask _ _ _ ∷ us) = suc (asks us)
asks (Use.sweep _ ∷ us) = asks us

-- Requests come at `since` or later, and no cutoff is past it.
abbrev pub AreSince : ℕ → List Use → Type 0
AreSince since [] = Unit
AreSince since (Use.ask now _ _ ∷ us) = (since ≤ now) × AreSince since us
AreSince since (Use.sweep cutoff ∷ us) = (cutoff ≤ since) × AreSince since us

-- the store names the conversation
Holds : Bytes → Bytes → ℕ → Cache → Type 0
Holds key id since c =
    (e : Entry) × (GoMap.get key c.entries ≡ some e) × (e.id ≡ id) × (since ≤ e.last_used)

get-drop_before :
    (cutoff : ℕ) (key : Bytes) (e : Entry) (m : Map Entry)
    → GoMap.get key m ≡ some e
    → cutoff ≤ e.last_used
    → GoMap.get key (drop_before cutoff m) ≡ some e
unfolding drop_before GoMap.get
get-drop_before cutoff key e [] h l = h
get-drop_before cutoff key e ((k, f) ∷ m) h l = elim (Bool-cases (k == key)) [
  | inl p ↦
      let same : f ≡ e = cc in
      let kept : ltb f.last_used cutoff ≡ false = rw same (ground arith) in
      rw (kept, p) (ap some same)
  | inr p ↦ ground (arith, get-drop_before cutoff key e m (ground arith) l)
]

sweep-Holds :
    (c : Cache) (cutoff since : ℕ) (key id : Bytes)
    → cutoff ≤ since
    → Holds key id since c
    → Holds key id since (evict_expired cutoff c)
unfolding Holds evict_expired
sweep-Holds c cutoff since key id l (e, h, i, s) =
    (e, get-drop_before cutoff key e c.entries h (omega (arith, l, s)), i, s)

-- below the cap nothing is evicted
make_room_lem : (c : Cache) → length c.entries < c.max → make_room c ≡ c.entries
unfolding make_room
make_room_lem c h = ground (arith, h)

ask-Holds :
    (c : Cache) (now since : ℕ) (key id other fresh : Bytes)
    → since ≤ now
    → length c.entries < c.max
    → Holds key id since c
    → Holds key id since (get_or_create c now other fresh).0
unfolding Holds get_or_create
ask-Holds c now since key id other fresh l room (e, h, i, s) =
    elim (Option-cases (GoMap.get other c.entries)) [
      | inl none_yet ↦
          let apart : other == key ≡ false = elim (Bool-cases (other == key)) [
            | inl p ↦ let same : other ≡ key = eq→≡ other key p in cc
            | inr p ↦ p
          ] in
          rw (none_yet, make_room_lem c room)
            (
              e,
              get-put other key (record { id = fresh; last_used = now }) c.entries ∙ (rw apart h),
              i,
              s,
            )
      | inr (f, known) ↦ elim (Bool-cases (other == key)) [
        | inl p ↦
            let same : other ≡ key = eq→≡ other key p in
            let agree : f ≡ e = cc in
            rw known (
              record { id = f.id; last_used = now },
              get-put other key (record { id = f.id; last_used = now }) c.entries ∙ rw p refl,
              ap (λ (x : Entry). x.id) agree ∙ i,
              l,
            )
        | inr p ↦
            rw known (
              e,
              get-put other key (record { id = f.id; last_used = now }) c.entries ∙ rw p h,
              i,
              s,
            )
      ]
    ]

ask-length :
    (c : Cache) (now : ℕ) (other fresh : Bytes)
    → length c.entries < c.max
    → (length (get_or_create c now other fresh).0.entries ≤ suc (length c.entries))
      × ((get_or_create c now other fresh).0.max ≡ c.max)
unfolding get_or_create
ask-length c now other fresh room = elim (Option-cases (GoMap.get other c.entries)) [
  | inl none_yet ↦
      rw (none_yet, make_room_lem c room)
        (length-put other (record { id = fresh; last_used = now }) c.entries, refl)
  | inr (f, known) ↦
      rw known (length-put other (record { id = f.id; last_used = now }) c.entries, refl)
]

use_all-Holds :
    (uses : List Use) (c : Cache) (since : ℕ) (key id : Bytes)
    → AreSince since uses
    → length c.entries + asks uses ≤ c.max
    → Holds key id since c
    → Holds key id since (use_all c uses)
unfolding use_all use_on evict_expired
use_all-Holds [] c since key id a room h = h
use_all-Holds (Use.ask now other fresh ∷ us) c since key id (l, a) room h =
    let less : length c.entries < c.max = omega (arith, room) in
    let size = ask-length c now other fresh less in
    use_all-Holds us (get_or_create c now other fresh).0 since key id a
      (omega (arith, room, size.0, size.1)) (ask-Holds c now since key id other fresh l less h)
use_all-Holds (Use.sweep cutoff ∷ us) c since key id (l, a) room h =
    use_all-Holds us (evict_expired cutoff c) since key id a
      (omega (arith, room, length-drop_before cutoff c.entries))
      (sweep-Holds c cutoff since key id l h)

answered-Holds :
    (c : Cache) (now : ℕ) (key fresh : Bytes)
    → Holds key (get_or_create c now key fresh).1 now (get_or_create c now key fresh).0
unfolding Holds get_or_create
answered-Holds c now key fresh = elim (Option-cases (GoMap.get key c.entries)) [
  | inl none_yet ↦ rw none_yet (
    record { id = fresh; last_used = now },
    get-put key key (record { id = fresh; last_used = now }) (make_room c) ∙ rw (eq_refl key) refl,
    refl,
    omega arith,
  )
  | inr (e, known) ↦ rw known (
    record { id = e.id; last_used = now },
    get-put key key (record { id = e.id; last_used = now }) c.entries ∙ rw (eq_refl key) refl,
    refl,
    omega arith,
  )
]

Holds-answer :
    (c : Cache) (now since : ℕ) (key id fresh : Bytes)
    → Holds key id since c
    → (get_or_create c now key fresh).1 ≡ id
unfolding Holds get_or_create
Holds-answer c now since key id fresh (e, h, i, s) = rw h i

-- Once a key has been answered, it is answered with the same id again, whatever other requests and sweeps come
-- in between, when the requests in between fit under the cap, come no earlier, and no cutoff is past the first.
pub get_or_create-use_all :
    (c : Cache) (now : ℕ) (key fresh : Bytes) (uses : List Use) (later : ℕ) (other : Bytes)
    → AreSince now uses
    → length (get_or_create c now key fresh).0.entries + asks uses
      ≤ (get_or_create c now key fresh).0.max
    → (get_or_create (use_all (get_or_create c now key fresh).0 uses) later key other).1
      ≡ (get_or_create c now key fresh).1
get_or_create-use_all c now key fresh uses later other a room =
    Holds-answer _ later now key _ other
      (use_all-Holds uses _ now key _ a room (answered-Holds c now key fresh))
