-- ===== src/Identity/Session/Times.antt =====
-- The time in an id: twelve hex digits that a reader can turn back.
use ocfp.Prelude.{
  ℕ, ◌+◌, ◌-◌, ◌*◌, ◌/◌, ◌%◌, ◌^◌, ◌<◌, ◌≡◌, refl, ap, ◌∙◌, Option, List, [], ◌∷◌, ◌++◌, Bytes, ltb,
  if◌then◌else◌, take, drop, arith,
}
use ocfp.Identity.Session.Shape.{AreBytes, time_bytes-AreBytes}
use ocfp.Identity.Session.{
  unstable_random, hex_digit, hex_encode, time_bytes, hex_time, Clock, stamp, tick,
  generate_session_id, generate_request_id,
}

hex_value_of : ℕ → ℕ
hex_value_of c = if ltb c 97 then c - 48 else c - 87

-- the number that hex digits spell, the first the highest
read_hex : ℕ → Bytes → ℕ
unfolding hex_value_of
read_hex n [] = n
read_hex n (c ∷ s) = read_hex (n * 16 + hex_value_of c) s

-- the time field of an id
pub time_of : Bytes → ℕ
unfolding read_hex
time_of id = read_hex 0 (take 12 (drop 4 id))

hex_value_of-hex_digit : (n : ℕ) → n < 16 → hex_value_of (hex_digit n) ≡ n
unfolding hex_value_of hex_digit
hex_value_of-hex_digit n h = ground arith

read_bytes : ℕ → List ℕ → ℕ
read_bytes n [] = n
read_bytes n (b ∷ bs) = read_bytes (n * 256 + b) bs

read_bytes-time_bytes : (v : ℕ) → read_bytes 0 (time_bytes v) ≡ v % 2 ^ 48
unfolding read_bytes
read_bytes-time_bytes v = omega arith

read_hex-hex_encode :
    (n : ℕ) (bs : List ℕ) → AreBytes bs → read_hex n (hex_encode bs) ≡ read_bytes n bs
unfolding read_hex read_bytes hex_encode AreBytes
read_hex-hex_encode n [] h = refl
read_hex-hex_encode n (b ∷ bs) (h, hs) =
    let high : hex_value_of (hex_digit (b / 16)) ≡ b / 16 =
      hex_value_of-hex_digit (b / 16) (omega arith) in
    let low : hex_value_of (hex_digit (b % 16)) ≡ b % 16 =
      hex_value_of-hex_digit (b % 16) (omega arith) in
    let same : (n * 16 + hex_value_of (hex_digit (b / 16))) * 16 + hex_value_of (hex_digit (b % 16))
        ≡ n * 256 + b =
      omega (arith, high, low) in
    ap (λ (k : ℕ). read_hex k (hex_encode bs)) same ∙ read_hex-hex_encode (n * 256 + b) bs hs

time_of-hex_time :
    (a b c d v : ℕ) (letters : Bytes) → time_of (a ∷ b ∷ c ∷ d ∷ hex_time v ++ letters) ≡ v % 2 ^ 48
unfolding time_of hex_encode
time_of-hex_time a b c d v letters =
    read_hex-hex_encode 0 (time_bytes v) (time_bytes-AreBytes v) ∙ read_bytes-time_bytes v

-- The time field of a request id is the low 48 bits of the millisecond times 4096, plus one; that of a session
-- id is the complement of the low 48 bits of the millisecond times 4096 plus the counter.
pub ids-time_of :
    (clock : Clock) (now : ℕ) (random : Option (List ℕ))
    → (time_of (generate_request_id now random) ≡ (now * 4096 + 1) % 2 ^ 48)
      × (time_of (generate_session_id clock now random).1
          ≡ 2 ^ 48 - 1 - (now * 4096 + (tick clock now).counter) % 2 ^ 48)
unfolding generate_request_id generate_session_id
ids-time_of clock now random = (
  time_of-hex_time _ _ _ _ (stamp now 1) (unstable_random random) ∙ omega arith,
  time_of-hex_time _ _ _ _ (2 ^ 64 - 1 - stamp now (tick clock now).counter)
        (unstable_random random)
      ∙ omega arith,
)
