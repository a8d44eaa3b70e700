-- ===== src/Tests/Tunnels.antt =====
-- The theorems on SOCKS5, at a proxy that asks for a login and grants a request for a name.
use ocfp.Prelude.{◌%◌, ◌≡◌, refl, none, some, [], ◌∷◌, ◌++◌, Bytes, bytes, ◌==◌, arith}
use ocfp.Upstream.Socks.{Address, Conn, Outcome, Names, request, handshake, address_of}
use ocfp.Upstream.Socks.Requests.{IsAddress, read_request, request-read_request}
use ocfp.Upstream.Socks.Tunnel.{reply}
use ocfp.Upstream.Socks.Handshake.{Admits, login, moved, handshake-granted}

abbrev target : Address
target = Address.name (bytes "h")

request-read_request_example :
    read_request (request target 443 ++ bytes "x") ≡ some (target, 443 % 65536, bytes "x")
unfolding IsAddress
request-read_request_example = request-read_request target 443 (bytes "x") (omega arith)

abbrev names : Names
names = record {
  split = λ addr. some (bytes "h", bytes "443");
  atoi = λ s. some 443;
  parse_ip = λ host. none;
  lookup = λ host. none;
}

abbrev bound : Address
bound = Address.v4 (0 ∷ 0 ∷ 0 ∷ 0 ∷ [])

abbrev out : Bytes
out = (5 ∷ 2 ∷ 0 ∷ 2 ∷ []) ++ login (bytes "u") (bytes "p")

abbrev conn : Conn
conn = record {
  incoming = (5 ∷ 2 ∷ 1 ∷ 0 ∷ []) ++ (reply 0 bound 1 2 ++ bytes "x");
  sent = [];
  writable = 100;
}

abbrev socks5h : Bytes
socks5h = bytes "socks5h"

resolved : address_of names socks5h (bytes "h") ≡ ocfp.Upstream.Socks.at target
unfolding address_of ◌==◌
resolved = refl

handshake-granted_example :
    handshake names socks5h (some (bytes "u", bytes "p")) (bytes "h:443") conn
    ≡ Outcome.done tt (moved conn (out ++ request target 443) (bytes "x"))
unfolding IsAddress request
handshake-granted_example =
    handshake-granted names socks5h (bytes "h:443") (bytes "h") (bytes "443") 443 target conn 0
      bound 1 2 (bytes "x") refl refl resolved
      (Admits.by_login (bytes "u") (bytes "p") (omega arith) (omega arith)) refl (omega arith) refl
