-- ===== src/Upstream/Socks/Requests.antt =====
-- A CONNECT request says the address and the port that it is for.
use ocfp.Prelude.{
  ℕ, ◌+◌, ◌*◌, ◌/◌, ◌%◌, ◌≤◌, ◌≡◌, refl, sym, ap, ◌∙◌, Option, none, some, [], ◌∷◌, ◌++◌, Bytes,
  eqb, if◌then◌else◌, length, take, drop, arith,
}
use mathlib.Core.List.{append_assoc}
use ocfp.Upstream.Socks.{Address, address_bytes, request}

-- an address that has its form
unfoldable pub IsAddress : Address → Type 0
IsAddress (Address.v4 b) = length b ≡ 4
IsAddress (Address.v6 b) = length b ≡ 16
IsAddress (Address.name s) = length s ≤ 255

pub take-append : (b s : Bytes) → take (length b) (b ++ s) ≡ b
take-append [] s = refl
take-append (x ∷ b) s = ap (λ (t : Bytes). x ∷ t) (take-append b s)

pub drop-append : (b s : Bytes) → drop (length b) (b ++ s) ≡ s
drop-append [] s = refl
drop-append (x ∷ b) s = drop-append b s

-- RFC 1928, section 4, as a proxy reads it: the port, high byte first, and what follows it
abbrev pub port_behind : Address → Bytes → Option (Address × ℕ × Bytes)
port_behind a [] = none
port_behind a (hi ∷ []) = none
port_behind a (hi ∷ lo ∷ rest) = some (a, hi * 256 + lo, rest)

abbrev pub read_port : (Bytes → Address) → ℕ → Bytes → Option (Address × ℕ × Bytes)
read_port form n s = port_behind (form (take n s)) (drop n s)

abbrev pub read_form : ℕ → Bytes → Option (Address × ℕ × Bytes)
read_form kind [] = none
read_form kind (l ∷ s) =
    if eqb kind 1
    then read_port Address.v4 4 (l ∷ s)
    else if eqb kind 4
    then read_port Address.v6 16 (l ∷ s)
    else if eqb kind 3
    then read_port Address.name l s
    else none

unfoldable pub read_request : Bytes → Option (Address × ℕ × Bytes)
read_request (v ∷ c ∷ r ∷ kind ∷ s) =
    if eqb v 5 then if eqb c 1 then read_form kind s else none else none
read_request _ = none

read_port-append :
    (form : Bytes → Address) (n : ℕ) (b : Bytes) (hi lo : ℕ) (rest : Bytes)
    → length b ≡ n
    → read_port form n (b ++ hi ∷ lo ∷ rest) ≡ some (form b, hi * 256 + lo, rest)
read_port-append form n b hi lo rest e =
    ap (λ (k : ℕ). read_port form k (b ++ hi ∷ lo ∷ rest)) (sym e)
    ∙ ap (λ (t : Bytes). port_behind (form (take (length b) (b ++ hi ∷ lo ∷ rest))) t)
        (drop-append b (hi ∷ lo ∷ rest))
    ∙ ap (λ (t : Bytes). some (form t, hi * 256 + lo, rest)) (take-append b (hi ∷ lo ∷ rest))

request-append :
    (a : Address) (hi lo : ℕ) (rest : Bytes)
    → IsAddress a
    → read_request (5 ∷ 1 ∷ 0 ∷ (address_bytes a ++ hi ∷ lo ∷ rest)) ≡ some (a, hi * 256 + lo, rest)
unfolding IsAddress read_request
request-append (Address.v4 (x ∷ b)) hi lo rest e =
    read_port-append Address.v4 4 (x ∷ b) hi lo rest e
request-append (Address.v4 []) hi lo rest e = absurd (omega (arith, e))
request-append (Address.v6 (x ∷ b)) hi lo rest e =
    read_port-append Address.v6 16 (x ∷ b) hi lo rest e
request-append (Address.v6 []) hi lo rest e = absurd (omega (arith, e))
request-append (Address.name s) hi lo rest h =
    read_port-append Address.name (length s % 256) s hi lo rest (omega (arith, h))

-- A proxy that reads a request gets the address, in the form in which it was given, the port's low 16 bits, and
-- the bytes behind the request: the address has its four or sixteen bytes, a name at most 255.
pub request-read_request :
    (a : Address) (port : ℕ) (rest : Bytes)
    → IsAddress a
    → read_request (request a port ++ rest) ≡ some (a, port % 65536, rest)
unfolding request
request-read_request a port rest h =
    ap (λ (t : Bytes). read_request (5 ∷ 1 ∷ 0 ∷ t))
      (append_assoc (address_bytes a) (port / 256 % 256 ∷ port % 256 ∷ []) rest)
    ∙ request-append a (port / 256 % 256) (port % 256) rest h
    ∙ ap (λ (n : ℕ). some (a, n, rest)) (omega arith)
