-- ===== src/Upstream/Socks/Handshake.antt =====
-- The whole handshake against a proxy that grants it.
use ocfp.Prelude.{
  ℕ, ◌-◌, ◌%◌, ◌≤◌, ◌≡◌, refl, ap, ◌∙◌, Bool, false, ◌||◌, Option, none, some, [], ◌∷◌, ◌++◌, Bytes,
  ltb, if◌then◌else◌, length, length-append, arith,
}
use mathlib.Core.List.{append_assoc}
use ocfp.Upstream.Socks.{
  Address, DialError, Conn, Outcome, Credentials, read_full, write_all, and_then, greeting,
  authenticate, verdict_of, choose, negotiate, request, Names, Found, address_of, ask_found,
  connect_to, connect, handshake,
}
use ocfp.Upstream.Socks.Requests.{IsAddress}
use ocfp.Upstream.Socks.Tunnel.{reply, read_full-append, write_all-fits, ask-granted}

-- RFC 1929, section 2
abbrev pub login : Bytes → Bytes → Bytes
login user pass = 1 ∷ length user % 256 ∷ (user ++ length pass % 256 ∷ pass)

-- what a proxy that lets the client in answers, and what the client has sent it by then
pub data Admits : Credentials → Bytes → Bytes → Type 0 where
  openly : (auth : Credentials) → Admits auth (5 ∷ 0 ∷ []) (greeting auth)
  by_login :
      (user pass : Bytes)
      → length user ≤ 255
      → length pass ≤ 255
      → Admits
          (some (user, pass))
          (5 ∷ 2 ∷ 1 ∷ 0 ∷ [])
          (greeting (some (user, pass)) ++ login user pass)

-- the connection after some bytes were sent and the answers taken
abbrev pub moved : Conn → Bytes → Bytes → Conn
moved c out rest = record {
  incoming = rest;
  sent = c.sent ++ out;
  writable = c.writable - length out;
}

greeted :
    (auth : Credentials) (c : Conn) (answer rest : Bytes)
    → length (greeting auth) ≤ c.writable
    → length answer ≡ 2
    → c.incoming ≡ answer ++ rest
    → negotiate auth c ≡ choose auth answer (moved c (greeting auth) rest)
unfolding negotiate
greeted auth c answer rest room two i =
    ap (λ (o : Outcome (Unit {0})). and_then o (λ _ c'. and_then (read_full 2 c') (choose auth)))
      (write_all-fits (greeting auth) c room)
    ∙ ap (λ (o : Outcome Bytes). and_then o (choose auth))
        (read_full-append 2 answer
          (record c {
            sent = c.sent ++ greeting auth;
            writable = c.writable - length (greeting auth);
          })
          rest two i)

authenticate-login :
    (user pass : Bytes) (c : Conn) (rest : Bytes)
    → length user ≤ 255
    → length pass ≤ 255
    → length (login user pass) ≤ c.writable
    → c.incoming ≡ 1 ∷ 0 ∷ rest
    → authenticate (some (user, pass)) c ≡ Outcome.done tt (moved c (login user pass) rest)
unfolding authenticate
authenticate-login user pass c rest u p room i =
    let short : ltb 255 (length user) || ltb 255 (length pass) ≡ false = ground (arith, u, p) in
    ap
      (λ (b : Bool).
        if b
        then Outcome.failed DialError.long_credentials
        else and_then (write_all (login user pass) c)
            (λ _ c'. and_then (read_full 2 c') verdict_of))
      short
    ∙ ap (λ (o : Outcome (Unit {0})). and_then o (λ _ c'. and_then (read_full 2 c') verdict_of))
        (write_all-fits (login user pass) c room)
    ∙ ap (λ (o : Outcome Bytes). and_then o verdict_of)
        (read_full-append 2 (1 ∷ 0 ∷ [])
          (record c {
            sent = c.sent ++ login user pass;
            writable = c.writable - length (login user pass);
          })
          rest refl i)

moved-moved :
    (c : Conn) (a b rest rest' : Bytes) → moved (moved c a rest') b rest ≡ moved c (a ++ b) rest
moved-moved c a b rest rest' =
    let size : c.writable - length a - length b ≡ c.writable - length (a ++ b) =
      omega (arith, length-append a b) in
    ap
      (λ (s : Bytes). record {
        incoming = rest;
        sent = s;
        writable = c.writable - length a - length b;
      })
      (append_assoc c.sent a b)
    ∙ ap (λ (n : ℕ). record { incoming = rest; sent = c.sent ++ (a ++ b); writable = n }) size

negotiate-Admits :
    {auth : Credentials} {answers out : Bytes} (c : Conn) (rest : Bytes)
    → Admits auth answers out
    → length out ≤ c.writable
    → c.incoming ≡ answers ++ rest
    → negotiate auth c ≡ Outcome.done tt (moved c out rest)
unfolding choose
negotiate-Admits c rest (Admits.openly auth) room i = greeted auth c (5 ∷ 0 ∷ []) rest room refl i
negotiate-Admits c rest (Admits.by_login user pass u p) room i =
    let hello = greeting (some (user, pass)) in
    let size = length-append hello (login user pass) in
    greeted (some (user, pass)) c (5 ∷ 2 ∷ []) (1 ∷ 0 ∷ rest) (omega (arith, room, size)) refl i
    ∙ authenticate-login user pass (moved c hello (1 ∷ 0 ∷ rest)) rest u p
        (omega (arith, room, size)) refl
    ∙ ap (Outcome.done tt) (moved-moved c hello (login user pass) rest (1 ∷ 0 ∷ rest))

-- A proxy that admits the client, openly or by its login, and grants the request, and that takes what is sent:
-- the handshake succeeds, what was sent is the greeting, the login when it was asked for, and the request for
-- the address that the target resolves to, and the connection that the caller gets stands at the first byte
-- behind the reply.
pub handshake-granted :
    (names : Names) (scheme addr host port_text : Bytes) (port : ℕ) (a : Address)
    {auth : Credentials} {answers out : Bytes} (c : Conn) (r : ℕ) (bound : Address) (hi lo : ℕ)
    (rest : Bytes)
    → names.split addr ≡ some (host, port_text)
    → names.atoi port_text ≡ some port
    → address_of names scheme host ≡ Found.at a
    → Admits auth answers out
    → IsAddress bound
    → length (out ++ request a port) ≤ c.writable
    → c.incoming ≡ answers ++ (reply r bound hi lo ++ rest)
    → handshake names scheme auth addr c ≡ Outcome.done tt (moved c (out ++ request a port) rest)
unfolding handshake connect
handshake-granted names scheme addr host port_text port a {auth} {answers} {out} c r bound hi lo
      rest split atoi found admits good room i =
    let behind = reply r bound hi lo ++ rest in
    let size = length-append out (request a port) in
    ap (λ (o : Outcome (Unit {0})). and_then o (λ _ c'. connect names scheme addr c'))
      (negotiate-Admits c behind admits (omega (arith, room, size)) i)
    ∙ ap
        (λ (o : Option (Bytes × Bytes)). elim o [
          | none ↦ Outcome.failed DialError.bad_target
          | some (h, p) ↦ connect_to names scheme h (names.atoi p) (moved c out behind)
        ])
        split
    ∙ ap (λ (o : Option ℕ). connect_to names scheme host o (moved c out behind)) atoi
    ∙ ap (λ (f : Found). ask_found f port (moved c out behind)) found
    ∙ ask-granted a port (moved c out behind) r bound hi lo rest (omega (arith, room, size)) good
        refl
    ∙ ap (Outcome.done tt) (moved-moved c out (request a port) rest behind)
