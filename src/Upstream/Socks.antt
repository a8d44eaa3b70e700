-- ===== src/Upstream/Socks.antt =====
-- internal/upstream/socks5.go: the handshake with a SOCKS5 proxy. A connection is what the proxy will still
-- send, what was sent to it, and how many bytes it takes before a write fails or the context is done.
-- The resolver and net's parsers are parameters; an int is its 64 bits.
pub mod Requests
pub mod Tunnel
pub mod Handshake
use ocfp.Prelude.{
  ℕ, ◌+◌, ◌-◌, ◌*◌, ◌/◌, ◌%◌, Bool, true, false, Option, none, some, List, [], ◌∷◌, ◌++◌, Bytes,
  bytes, ◌==◌, eqb, leb, ltb, if◌then◌else◌, length, take, drop, ◌||◌, not, is_some,
}

-- an address of four or sixteen bytes, or a name
pub data Address : Type 0 where
  v4 v6 name : Bytes → Address

-- the errors; `auth_failed` is a proxyAuthError
pub data DialError : Type 0 where
  short_read write_failed auth_failed long_credentials bad_target bad_port long_name unresolved :
      DialError
  bad_version unknown_method bad_reply_version refused bad_bind : ℕ → DialError

pub record Conn : Type 0 where
  pub incoming : Bytes
  pub sent : Bytes
  pub writable : ℕ

pub data Outcome {ℓ} (A : Type ℓ) : Type ℓ where
  failed : DialError → Outcome A
  done : A → Conn → Outcome A

abbrev pub and_then {ℓ κ} :
    {A : Type ℓ} {B : Type κ} → Outcome A → (A → Conn → Outcome B) → Outcome B
and_then (Outcome.failed e) next = Outcome.failed e
and_then (Outcome.done a c) next = next a c

-- io.ReadFull, and io.CopyN to io.Discard
unfoldable pub read_full : ℕ → Conn → Outcome Bytes
read_full n c =
    if leb n (length c.incoming)
    then Outcome.done (take n c.incoming) (record c { incoming = drop n c.incoming })
    else Outcome.failed DialError.short_read

unfoldable pub write_all : Bytes → Conn → Outcome (Unit {0})
write_all b c =
    if leb (length b) c.writable
    then Outcome.done tt (record c { sent = c.sent ++ b; writable = c.writable - length b })
    else Outcome.failed DialError.write_failed

-- the user and the password of the proxy URL
abbrev pub Credentials : Type 0
Credentials = Option (Bytes × Bytes)

abbrev pub greeting : Credentials → Bytes
greeting none = 5 ∷ 1 ∷ 0 ∷ []
greeting (some _) = 5 ∷ 2 ∷ 0 ∷ 2 ∷ []

abbrev pub byte_at : Bytes → ℕ → ℕ
byte_at [] n = 0
byte_at (c ∷ s) ℕ.zero = c
byte_at (c ∷ s) (ℕ.suc n) = byte_at s n

abbrev pub verdict_of : Bytes → Conn → Outcome (Unit {0})
verdict_of buf c =
    if not (eqb (byte_at buf 0) 1) || not (eqb (byte_at buf 1) 0)
    then Outcome.failed DialError.auth_failed
    else Outcome.done tt c

-- RFC 1929, section 2
unfoldable pub authenticate : Credentials → Conn → Outcome (Unit {0})
unfolding read_full write_all
authenticate none c = Outcome.failed DialError.auth_failed
authenticate (some (user, pass)) c =
    let p = 1 ∷ length user % 256 ∷ (user ++ length pass % 256 ∷ pass) in
    if ltb 255 (length user) || ltb 255 (length pass)
    then Outcome.failed DialError.long_credentials
    else and_then (write_all p c) (λ _ c'. and_then (read_full 2 c') verdict_of)

abbrev pub choose : Credentials → Bytes → Conn → Outcome (Unit {0})
unfolding authenticate
choose auth buf c =
    if not (eqb (byte_at buf 0) 5)
    then Outcome.failed (DialError.bad_version (byte_at buf 0))
    else if eqb (byte_at buf 1) 0
    then Outcome.done tt c
    else if eqb (byte_at buf 1) 2
    then authenticate auth c
    else if eqb (byte_at buf 1) 255
    then Outcome.failed DialError.auth_failed
    else Outcome.failed (DialError.unknown_method (byte_at buf 1))

unfoldable pub negotiate : Credentials → Conn → Outcome (Unit {0})
unfolding choose read_full write_all
negotiate auth c =
    and_then (write_all (greeting auth) c) (λ _ c'. and_then (read_full 2 c') (choose auth))

-- net.SplitHostPort, strconv.Atoi, net.ParseIP and the resolver, whose addresses are v4 or v6
pub record Names : Type 0 where
  pub split : Bytes → Option (Bytes × Bytes)
  pub atoi : Bytes → Option ℕ
  pub parse_ip : Bytes → Option Address
  pub lookup : Bytes → Option (List Address)

pub data Found : Type 0 where
  nowhere : DialError → Found
  at : Address → Found

abbrev pub first_of : Option (List Address) → Found
first_of none = Found.nowhere DialError.unresolved
first_of (some []) = Found.nowhere DialError.unresolved
first_of (some (a ∷ rest)) = Found.at a

-- a literal stays one; otherwise the proxy's scheme says who resolves
unfoldable pub address_of : Names → Bytes → Bytes → Found
address_of names scheme host = elim (names.parse_ip host) [
  | some a ↦ Found.at a
  | none ↦
      if scheme == bytes "socks5h"
      then if ltb 255 (length host)
        then Found.nowhere DialError.long_name
        else Found.at (Address.name host)
      else first_of (names.lookup host)
]

abbrev pub address_bytes : Address → Bytes
address_bytes (Address.v4 b) = 1 ∷ b
address_bytes (Address.v6 b) = 4 ∷ b
address_bytes (Address.name s) = 3 ∷ length s % 256 ∷ s

unfoldable pub request : Address → ℕ → Bytes
request a port = 5 ∷ 1 ∷ 0 ∷ (address_bytes a ++ port / 256 % 256 ∷ port % 256 ∷ [])

-- the bind address and the port behind it
unfoldable pub skip_bound : ℕ → Conn → Outcome (Unit {0})
unfolding read_full
skip_bound n c = and_then (read_full (n + 2) c) (λ _ c'. Outcome.done tt c')

abbrev pub after_head : Bytes → Conn → Outcome (Unit {0})
unfolding skip_bound read_full
after_head head c =
    if not (eqb (byte_at head 0) 5)
    then Outcome.failed (DialError.bad_reply_version (byte_at head 0))
    else if not (eqb (byte_at head 1) 0)
    then Outcome.failed (DialError.refused (byte_at head 1))
    else if eqb (byte_at head 3) 1
    then skip_bound 4 c
    else if eqb (byte_at head 3) 4
    then skip_bound 16 c
    else if eqb (byte_at head 3) 3
    then and_then (read_full 1 c) (λ l c'. skip_bound (byte_at l 0) c')
    else Outcome.failed (DialError.bad_bind (byte_at head 3))

unfoldable pub ask : Address → ℕ → Conn → Outcome (Unit {0})
unfolding request read_full write_all after_head
ask a port c =
    and_then (write_all (request a port) c) (λ _ c'. and_then (read_full 4 c') after_head)

abbrev pub ask_found : Found → ℕ → Conn → Outcome (Unit {0})
unfolding ask
ask_found (Found.nowhere e) port c = Outcome.failed e
ask_found (Found.at a) port c = ask a port c

abbrev pub connect_to : Names → Bytes → Bytes → Option ℕ → Conn → Outcome (Unit {0})
unfolding ask_found address_of
connect_to names scheme host none c = Outcome.failed DialError.bad_port
connect_to names scheme host (some port) c = ask_found (address_of names scheme host) port c

unfoldable pub connect : Names → Bytes → Bytes → Conn → Outcome (Unit {0})
unfolding connect_to
connect names scheme addr c = elim (names.split addr) [
  | none ↦ Outcome.failed DialError.bad_target
  | some (host, port) ↦ connect_to names scheme host (names.atoi port) c
]

-- the handshake of DialContext: the connection that the caller gets
unfoldable pub handshake : Names → Bytes → Credentials → Bytes → Conn → Outcome (Unit {0})
unfolding negotiate connect
handshake names scheme auth addr c =
    and_then (negotiate auth c) (λ _ c'. connect names scheme addr c')
