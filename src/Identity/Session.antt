-- ===== src/Identity/Session.antt =====
-- internal/identity/session.go: the ids in the upstream's shape. A time is its Unix millisecond; the bytes of
-- crypto/rand and the SHA-256 sum are arguments.
pub mod Shape
pub mod Times
use ocfp.Prelude.{
  ℕ, ◌+◌, ◌-◌, ◌*◌, ◌/◌, ◌%◌, ◌^◌, Bool, true, false, ◌&&◌, ◌||◌, Option, none, some, List, [], ◌∷◌,
  ◌++◌, map, Bytes, bytes, ltb, leb, eqb, if◌then◌else◌, get_or, take, drop,
}
use ocfp.Config.Validate.{is_empty}

abbrev pub is_between : ℕ → ℕ → ℕ → Bool
is_between low high c = leb low c && leb c high

-- [0-9a-f]
unfoldable pub is_hex : ℕ → Bool
is_hex c = is_between 48 57 c || is_between 97 102 c

-- [0-9A-Za-z]
unfoldable pub is_base62 : ℕ → Bool
is_base62 c = is_between 48 57 c || is_between 65 90 c || is_between 97 122 c

unfoldable pub after_prefix : Bytes → Bytes → Option Bytes
after_prefix [] s = some s
after_prefix (c ∷ p) [] = none
after_prefix (c ∷ p) (d ∷ s) = if eqb c d then after_prefix p s else none

-- a class repeated n times
unfoldable pub after_run : (ℕ → Bool) → ℕ → Option Bytes → Option Bytes
after_run test n none = none
after_run test ℕ.zero (some s) = some s
after_run test (ℕ.suc n) (some []) = none
after_run test (ℕ.suc n) (some (c ∷ s)) = after_run test n (if test c then some s else none)

abbrev pub is_end : Option Bytes → Bool
is_end (some []) = true
is_end _ = false

abbrev pub ses : Bytes
ses = bytes "ses_"

abbrev pub msg : Bytes
msg = bytes "msg_"

-- ^<prefix>[0-9a-f]{12}[0-9A-Za-z]{14}$
unfoldable pub matches_id : Bytes → Bytes → Bool
matches_id prefix s = is_end (after_run is_base62 14 (after_run is_hex 12 (after_prefix prefix s)))

abbrev pub base62_chars : Bytes
base62_chars = bytes "0123456789ABCDEFGHIJKLMNOPQRSTUVWXYZabcdefghijklmnopqrstuvwxyz"

unfoldable pub base62_of : ℕ → ℕ
base62_of c = get_or base62_chars (c % 62) 48

abbrev pub filler : List ℕ
filler = 0 ∷ 1 ∷ 2 ∷ 3 ∷ 4 ∷ 5 ∷ 6 ∷ 7 ∷ 8 ∷ 9 ∷ 10 ∷ 11 ∷ 12 ∷ 13 ∷ []

-- `none` stands for an error of rand.Read
abbrev pub unstable_random : Option (List ℕ) → Bytes
unstable_random none = map base62_of filler
unstable_random (some b) = map base62_of b

unfoldable pub hex_digit : ℕ → ℕ
hex_digit n = if ltb n 10 then 48 + n else 87 + n

-- hex.EncodeToString
unfoldable pub hex_encode : List ℕ → Bytes
hex_encode [] = []
hex_encode (b ∷ bs) = hex_digit (b / 16) ∷ hex_digit (b % 16) ∷ hex_encode bs

abbrev pub time_bytes : ℕ → List ℕ
time_bytes v =
    (v / 2 ^ 40) % 256
    ∷ (v / 2 ^ 32) % 256
    ∷ (v / 2 ^ 24) % 256
    ∷ (v / 2 ^ 16) % 256
    ∷ (v / 2 ^ 8) % 256
    ∷ v % 256
    ∷ []

abbrev pub hex_time : ℕ → Bytes
hex_time v = hex_encode (time_bytes v)

pub record Clock : Type 0 where
  pub last_milli : ℕ
  pub counter : ℕ

-- the timestamp and the counter in a uint64
abbrev pub stamp : ℕ → ℕ → ℕ
stamp millis counter = (millis * 0x1000 + counter) % 2 ^ 64

-- the counter starts over with the millisecond
unfoldable pub tick : Clock → ℕ → Clock
tick clock now =
    if eqb now clock.last_milli
    then record { last_milli = now; counter = clock.counter + 1 }
    else record { last_milli = now; counter = 1 }

unfoldable pub generate_session_id : Clock → ℕ → Option (List ℕ) → Clock × Bytes
unfolding tick
generate_session_id clock now random =
    let clock' = tick clock now in
    (clock', ses ++ hex_time (2 ^ 64 - 1 - stamp now clock'.counter) ++ unstable_random random)

unfoldable pub generate_request_id : ℕ → Option (List ℕ) → Bytes
generate_request_id now random = msg ++ hex_time (stamp now 1) ++ unstable_random random

-- opencode\0<tool>\0<key>
abbrev pub scoped_key : Bytes → Bytes → Bytes
scoped_key tool session = bytes "opencode" ++ 0 ∷ tool ++ 0 ∷ session

-- the id that a sum maps to
abbrev pub id_of_sum : List ℕ → Bytes
id_of_sum sum = ses ++ hex_encode (take 6 sum) ++ map base62_of (take 14 (drop 6 sum))

module _ (trim_space : Bytes → Bytes) where
  unfoldable pub is_valid_session : Bytes → Bool
  is_valid_session s = matches_id ses (trim_space s)

  unfoldable pub translate_session_id : (Bytes → List ℕ) → Bytes → Bytes → Bytes
  translate_session_id sha256 session tool =
      let trimmed = trim_space session in
      if matches_id ses trimmed
      then trimmed
      else id_of_sum (sha256 (scoped_key (if is_empty tool then bytes "generic" else tool) session))
