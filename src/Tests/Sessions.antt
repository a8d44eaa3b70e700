-- ===== src/Tests/Sessions.antt =====
-- The theorems on session ids, at a request that names no session.
use ocfp.Prelude.{
  ℕ, ◌+◌, ◌-◌, ◌*◌, ◌%◌, ◌^◌, ◌≡◌, refl, true, false, none, List, [], ◌∷◌, Bytes, bytes, replicate,
  arith,
}
use ocfp.Prelude.GoMap
use ocfp.Identity.Cache.Stability.{Use}
use ocfp.Jsonx.{Floats, as_str, get, as_obj, as_arr, read}
use ocfp.Identity.Session.{ses, matches_id, Clock, generate_session_id, generate_request_id, tick}
use ocfp.Identity.Session.Shape.{AreBytes, IsRandom, IsSum}
use ocfp.Identity.Session.Times.{time_of, ids-time_of}
use ocfp.Identity.Cache.{new_cache, get_or_create, make_room}
use ocfp.Identity.Cache.Bounds.{IsBounded, get_or_create-IsBounded}
use ocfp.Identity.Clients.{Texts, extract_client_session_id, accumulate_assistant_text}
use ocfp.Identity.Clients.Resolving.{Stores, Draw, resolve_session, resolve_session_id_scoped}
use ocfp.Identity.Clients.Resolving.Shape.{resolve_session-matches_id}
use ocfp.Identity.Clients.Resolving.Stable.{Fits, after_uses, resolve_session_id_scoped-after_uses}

abbrev texts : Texts ℕ
texts = record {
  trim_space = λ s. s;
  to_lower = λ s. s;
  sprint = λ v. [];
  unmarshal = λ s. none;
  sha256 = λ s. replicate 32 7;
}

abbrev floats : Floats ℕ
floats = record {
  zero = 0;
  one = 1;
  of_nat = λ n. n;
  is_zero = λ n. false;
  is_nan = λ n. false;
  is_inf = λ n. false;
  lt = λ n m. false;
  le = λ n m. false;
  add = λ n m. n + m;
  mul = λ n m. n * m;
  max = λ n m. m;
  floor = λ n. n;
}

abbrev clock : Clock
clock = record { last_milli = 0; counter = 0 }

abbrev draw : Draw
draw = record { now = 5; millis = 9; buf = 1 ∷ []; random = none }

abbrev stores : Stores
stores = record { connections = new_cache 1000; assistants = new_cache 5000 }

replicate-AreBytes : (n : ℕ) → AreBytes (replicate n 7)
unfolding AreBytes
replicate-AreBytes ℕ.zero = tt
replicate-AreBytes (ℕ.suc n) = (omega arith, replicate-AreBytes n)

sums : (s : Bytes) → IsSum (texts.sha256 s)
unfolding IsSum
sums s = (replicate-AreBytes 32, refl)

resolve_session-matches_id_example :
    matches_id ses (resolve_session texts floats stores clock draw [] []).2 ≡ true
unfolding IsRandom
resolve_session-matches_id_example =
    resolve_session-matches_id texts floats sums stores clock draw [] [] tt

ids-time_of_example :
    (time_of (generate_request_id 9 none) ≡ (9 * 4096 + 1) % 2 ^ 48)
    × (time_of (generate_session_id clock 9 none).1
        ≡ 2 ^ 48 - 1 - (9 * 4096 + (tick clock 9).counter) % 2 ^ 48)
ids-time_of_example = ids-time_of clock 9 none

get_or_create-IsBounded_example :
    IsBounded (get_or_create (new_cache 1) 5 (bytes "k") (bytes "i")).0
unfolding IsBounded
get_or_create-IsBounded_example =
    get_or_create-IsBounded (new_cache 1) 5 (bytes "k") (bytes "i") (omega arith, omega arith)

-- another conversation, and a sweep
abbrev uses : List Use
uses = Use.ask 6 (bytes "k") (bytes "i") ∷ Use.sweep 3 ∷ []

resolve_session_id_scoped-after_uses_example :
    (resolve_session_id_scoped texts floats
      (after_uses (resolve_session_id_scoped texts floats stores draw [] [] []).0 uses [])
      draw
      []
      []
      []).1
    ≡ (resolve_session_id_scoped texts floats stores draw [] [] []).1
unfolding Fits resolve_session_id_scoped extract_client_session_id as_str get as_obj read GoMap.get
    accumulate_assistant_text as_arr GoMap.put make_room
resolve_session_id_scoped-after_uses_example =
    resolve_session_id_scoped-after_uses texts floats stores draw draw [] [] [] uses []
      ((omega arith, (omega arith, tt)), omega arith) (tt, omega arith)
