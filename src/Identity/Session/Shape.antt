-- ===== src/Identity/Session/Shape.antt =====
-- The ids that the proxy makes have the shape that the upstream asks for.
use ocfp.Prelude.{
  ℕ, ◌-◌, ◌*◌, ◌/◌, ◌%◌, ◌<◌, ◌≡◌, refl, ap, ◌∙◌, Bool, true, ◌&&◌, Option, none, some, List, [],
  ◌∷◌, ◌++◌, map, subst, length-take, length-drop, Bytes, if◌then◌else◌, get_or, length, take, drop,
  arith, Bool-cases, inl, inr,
}
use Prim.Native.Nat.{min}
use ocfp.Config.Validate.Sets.{All}
use ocfp.Identity.Session.{
  is_hex, is_base62, after_prefix, after_run, is_end, ses, matches_id, base62_chars, base62_of,
  filler, unstable_random, hex_digit, hex_encode, time_bytes, hex_time, Clock, generate_session_id,
  id_of_sum, translate_session_id,
}

-- every byte passes the test
abbrev pub AllPass : (ℕ → Bool) → Bytes → Type 0
AllPass test = All (λ c. test c ≡ true)

unfoldable pub AreBytes : List ℕ → Type 0
AreBytes = All (λ b. b < 256)

after_prefix-append : (p s : Bytes) → after_prefix p (p ++ s) ≡ some s
unfolding after_prefix
after_prefix-append [] s = refl
after_prefix-append (c ∷ p) s = ground (arith, after_prefix-append p s)

after_run-append :
    (test : ℕ → Bool) (xs s : Bytes)
    → AllPass test xs
    → after_run test (length xs) (some (xs ++ s)) ≡ some s
unfolding after_run
after_run-append test [] s h = refl
after_run-append test (x ∷ xs) s (h, hs) =
    ap (λ (b : Bool). after_run test (length xs) (if b then some (xs ++ s) else none)) h
    ∙ after_run-append test xs s hs

hex_digit-is_hex : (n : ℕ) → n < 16 → is_hex (hex_digit n) ≡ true
unfolding is_hex hex_digit
hex_digit-is_hex n h = ground arith

hex_encode-AllPass : (bs : List ℕ) → AreBytes bs → AllPass is_hex (hex_encode bs)
unfolding hex_encode AreBytes
hex_encode-AllPass [] h = tt
hex_encode-AllPass (b ∷ bs) (h, hs) = (
  hex_digit-is_hex (b / 16) (omega arith),
  (hex_digit-is_hex (b % 16) (omega arith), hex_encode-AllPass bs hs),
)

length-hex_encode : (bs : List ℕ) → length (hex_encode bs) ≡ 2 * length bs
unfolding hex_encode
length-hex_encode [] = omega arith
length-hex_encode (b ∷ bs) = omega (arith, length-hex_encode bs)

abbrev pub all_pass : (ℕ → Bool) → Bytes → Bool
all_pass test [] = true
all_pass test (c ∷ s) = test c && all_pass test s

get_or-all_pass :
    (test : ℕ → Bool) (xs : Bytes) (i d : ℕ)
    → all_pass test xs ≡ true
    → test d ≡ true
    → test (get_or xs i d) ≡ true
get_or-all_pass test [] i d h e = e
get_or-all_pass test (x ∷ xs) ℕ.zero d h e = ground arith
get_or-all_pass test (x ∷ xs) (ℕ.suc i) d h e = get_or-all_pass test xs i d (ground arith) e

base62_of-is_base62 : (c : ℕ) → is_base62 (base62_of c) ≡ true
unfolding is_base62 base62_of
base62_of-is_base62 c = get_or-all_pass is_base62 base62_chars (c % 62) 48 refl refl

map-AllPass : (bs : List ℕ) → AllPass is_base62 (map base62_of bs)
map-AllPass [] = tt
map-AllPass (b ∷ bs) = (base62_of-is_base62 b, map-AllPass bs)

length-map : (bs : List ℕ) → length (map base62_of bs) ≡ length bs
length-map [] = refl
length-map (b ∷ bs) = omega (arith, length-map bs)

after_run-all :
    (test : ℕ → Bool) (xs : Bytes)
    → AllPass test xs
    → after_run test (length xs) (some xs) ≡ some []
unfolding after_run
after_run-all test [] h = refl
after_run-all test (x ∷ xs) (h, hs) =
    ap (λ (b : Bool). after_run test (length xs) (if b then some xs else none)) h
    ∙ after_run-all test xs hs

made-matches_id :
    (prefix hex letters : Bytes)
    → AllPass is_hex hex
    → length hex ≡ 12
    → AllPass is_base62 letters
    → length letters ≡ 14
    → matches_id prefix (prefix ++ (hex ++ letters)) ≡ true
unfolding matches_id
made-matches_id prefix hex letters h m l n =
    let end : after_run is_base62 14 (some letters) ≡ some [] =
      subst (λ k. after_run is_base62 k (some letters) ≡ some []) n
        (after_run-all is_base62 letters l) in
    let middle : after_run is_hex 12 (some (hex ++ letters)) ≡ some letters =
      subst (λ k. after_run is_hex k (some (hex ++ letters)) ≡ some letters) m
        (after_run-append is_hex hex letters h) in
    ap (λ (o : Option Bytes). is_end (after_run is_base62 14 (after_run is_hex 12 o)))
      (after_prefix-append prefix (hex ++ letters))
    ∙ ap (λ (o : Option Bytes). is_end (after_run is_base62 14 o)) middle
    ∙ ap is_end end

-- what rand.Read returns for a buffer of fourteen bytes
unfoldable pub IsRandom : Option (List ℕ) → Type 0
IsRandom none = Unit
IsRandom (some b) = length b ≡ 14

random-AllPass : (random : Option (List ℕ)) → AllPass is_base62 (unstable_random random)
random-AllPass none = map-AllPass filler
random-AllPass (some b) = map-AllPass b

length-unstable_random :
    (random : Option (List ℕ)) → IsRandom random → length (unstable_random random) ≡ 14
unfolding IsRandom
length-unstable_random none h = refl
length-unstable_random (some b) h = length-map b ∙ h

pub time_bytes-AreBytes : (v : ℕ) → AreBytes (time_bytes v)
unfolding AreBytes
time_bytes-AreBytes v =
    (omega arith, (omega arith, (omega arith, (omega arith, (omega arith, (omega arith, tt))))))

timed-matches_id :
    (prefix : Bytes) (v : ℕ) (random : Option (List ℕ))
    → IsRandom random
    → matches_id prefix (prefix ++ (hex_time v ++ unstable_random random)) ≡ true
timed-matches_id prefix v random h =
    made-matches_id prefix (hex_time v) (unstable_random random)
      (hex_encode-AllPass (time_bytes v) (time_bytes-AreBytes v)) (length-hex_encode (time_bytes v))
      (random-AllPass random) (length-unstable_random random h)

pub generate_session_id-matches_id :
    (clock : Clock) (now : ℕ) (random : Option (List ℕ))
    → IsRandom random
    → matches_id ses (generate_session_id clock now random).1 ≡ true
unfolding generate_session_id
generate_session_id-matches_id clock now random h = timed-matches_id ses _ random h

-- what crypto/sha256 returns
unfoldable pub IsSum : List ℕ → Type 0
IsSum sum = AreBytes sum × (length sum ≡ 32)

take-AreBytes : (n : ℕ) (bs : List ℕ) → AreBytes bs → AreBytes (take n bs)
unfolding AreBytes
take-AreBytes ℕ.zero bs h = tt
take-AreBytes (ℕ.suc n) [] h = tt
take-AreBytes (ℕ.suc n) (b ∷ bs) (h, hs) = (h, take-AreBytes n bs hs)

pub id_of_sum-matches_id : (sum : List ℕ) → IsSum sum → matches_id ses (id_of_sum sum) ≡ true
unfolding IsSum
id_of_sum-matches_id sum (h, n) =
    made-matches_id ses (hex_encode (take 6 sum)) (map base62_of (take 14 (drop 6 sum)))
      (hex_encode-AllPass (take 6 sum) (take-AreBytes 6 sum h))
      (length-hex_encode (take 6 sum) ∙ ap (λ (k : ℕ). 2 * k) (length-take 6 sum ∙ ap (min 6) n))
      (map-AllPass (take 14 (drop 6 sum)))
      (length-map (take 14 (drop 6 sum))
        ∙ length-take 14 (drop 6 sum)
        ∙ ap (min 14) (length-drop 6 sum ∙ ap (λ (k : ℕ). k - 6) n))

pub translate_session_id-matches_id :
    (trim_space : Bytes → Bytes) (sha256 : Bytes → List ℕ) (session tool : Bytes)
    → ((s : Bytes) → IsSum (sha256 s))
    → matches_id ses (translate_session_id trim_space sha256 session tool) ≡ true
unfolding translate_session_id
translate_session_id-matches_id trim_space sha256 session tool sums =
    elim (Bool-cases (matches_id ses (trim_space session))) [
      | inl e ↦ rw e e
      | inr e ↦ rw e (id_of_sum-matches_id _ (sums _))
    ]
