-- ===== src/Identity/Cache.antt =====
-- The store of internal/identity/sessionresolver.go: session ids by conversation key, capped in number, each
-- with the time of its last use. A time is a count of nanoseconds.
pub mod Bounds
pub mod Stability
use ocfp.Prelude.{
  ℕ, Bool, true, false, not, Option, none, some, List, [], ◌∷◌, Bytes, ltb, leb, if◌then◌else◌,
  length,
}
use ocfp.Prelude.GoMap
use ocfp.Prelude.GoMap.{Map}

pub record Entry : Type 0 where
  pub id : Bytes
  pub last_used : ℕ

pub record Cache : Type 0 where
  pub entries : Map Entry
  pub max : ℕ

abbrev pub new_cache : ℕ → Cache
new_cache max = record { entries = []; max = max }

-- the loop over the entries: the first one that none is before, in whatever order the map comes
unfoldable pub oldest_from : Bytes → Entry → Map Entry → Bytes
oldest_from key e [] = key
oldest_from key e ((k, f) ∷ m) =
    let key' = if ltb f.last_used e.last_used then k else key in
    let e' = if ltb f.last_used e.last_used then f else e in oldest_from key' e' m

abbrev pub oldest : Map Entry → Bytes
oldest [] = []
oldest ((k, e) ∷ m) = oldest_from k e m

-- room for one more
unfoldable pub make_room : Cache → Map Entry
unfolding oldest_from
make_room c =
    if leb c.max (length c.entries) then GoMap.delete (oldest c.entries) c.entries else c.entries

-- `fresh` is what gen returns, when it is called
abbrev pub answer : Cache → ℕ → Bytes → Bytes → Option Entry → Cache × Bytes
answer c now key fresh (some e) =
    (record c { entries = GoMap.put key (record { id = e.id; last_used = now }) c.entries }, e.id)
answer c now key fresh none = (
  record c { entries = GoMap.put key (record { id = fresh; last_used = now }) (make_room c) },
  fresh,
)

unfoldable pub get_or_create : Cache → ℕ → Bytes → Bytes → Cache × Bytes
get_or_create c now key fresh = answer c now key fresh (GoMap.get key c.entries)

unfoldable pub drop_before : ℕ → Map Entry → Map Entry
drop_before cutoff [] = []
drop_before cutoff ((k, e) ∷ m) =
    let rest = drop_before cutoff m in if ltb e.last_used cutoff then rest else (k, e) ∷ rest

-- evictExpired on one of the two stores
unfoldable pub evict_expired : ℕ → Cache → Cache
unfolding drop_before
evict_expired cutoff c = record c { entries = drop_before cutoff c.entries }
