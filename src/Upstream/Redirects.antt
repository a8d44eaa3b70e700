-- ===== src/Upstream/Redirects.antt =====
-- attempt of internal/upstream/client.go: one POST, with the redirects that a client of a proxy walks
-- itself. net/http and net/url are parameters: parsing a URL, resolving a Location, the canonical form
-- of a header's name, and what a round trip returns.
pub mod Chains
pub mod Away
pub mod Discreet
pub mod Leaks
use ocfp.Prelude.{
  ℕ, zero, suc, ◌+◌, ◌-◌, Bool, true, false, not, ◌&&◌, ◌||◌, Option, none, some, List, [], ◌∷◌,
  ◌++◌, Bytes, bytes, ◌==◌, leb, ltb, eqb, length, drop, if◌then◌else◌,
}
use ocfp.Config.Validate.{is_empty}

-- what is read of a *url.URL, and its String()
pub record Target : Type 0 where
  pub scheme : Bytes
  pub host : Bytes
  pub hostname : Bytes
  pub text : Bytes

pub data Transport : Type 0 where
  main tunneled : Transport

pub record Request : Type 0 where
  pub method : Bytes
  pub target : Target
  pub via : Transport
  pub headers : List (Bytes × Bytes)
  pub body : Option Bytes

-- `location` is empty where the header is missing
pub record Response : Type 0 where
  pub status : ℕ
  pub location : Bytes

pub data Exchange : Type 0 where
  broken : Bytes → Exchange
  answered : Response → Exchange

pub data Failure : Type 0 where
  bad_url bad_location bad_scheme too_many : Failure
  transport_error : Bytes → Failure

-- `handed` is the request that net/http's own client gets
pub data End : Type 0 where
  failed : Failure → End
  final : Response → End
  handed : Request → End

pub record Net : Type 0 where
  pub parse : Bytes → Option Target
  pub resolve : Target → Bytes → Option Target
  pub canonical : Bytes → Bytes
  pub send : ℕ → Request → Exchange

pub record Client : Type 0 where
  pub follows : Bool
  pub has_tunnel : Bool

abbrev pub max_redirects : ℕ
max_redirects = 20

abbrev pub post : Bytes
post = bytes "POST"

abbrev pub get : Bytes
get = bytes "GET"

-- the variables of the loop
pub record Chain : Type 0 where
  pub method : Bytes
  pub strip_sensitive : Bool
  pub dropped_body : Bool
  pub initial_host : Bytes
  pub initial_hostname : Bytes
  pub hops : ℕ
  pub current : Bytes

unfoldable pub is_redirect_status : ℕ → Bool
is_redirect_status code =
    eqb code 301 || eqb code 302 || eqb code 303 || eqb code 307 || eqb code 308

unfoldable pub is_one_of : Bytes → List Bytes → Bool
is_one_of k [] = false
is_one_of k (name ∷ names) = k == name || is_one_of k names

abbrev pub sensitive_names : List Bytes
sensitive_names =
    bytes "Authorization"
    ∷ bytes "Www-Authenticate"
    ∷ bytes "Cookie"
    ∷ bytes "Cookie2"
    ∷ bytes "Proxy-Authorization"
    ∷ bytes "Proxy-Authenticate"
    ∷ []

abbrev pub body_names : List Bytes
body_names =
    bytes "Content-Encoding"
    ∷ bytes "Content-Language"
    ∷ bytes "Content-Location"
    ∷ bytes "Content-Type"
    ∷ []

-- strings.ContainsAny(s, ":%")
unfoldable pub has_colon_or_percent : Bytes → Bool
has_colon_or_percent [] = false
has_colon_or_percent (c ∷ s) = eqb c b':' || eqb c b'%' || has_colon_or_percent s

-- strings.HasSuffix
unfoldable pub has_suffix : Bytes → Bytes → Bool
has_suffix s suffix = leb (length suffix) (length s) && drop (length s - length suffix) s == suffix

unfoldable pub same_domain_or_sub : Bytes → Bytes → Bool
unfolding has_colon_or_percent has_suffix
same_domain_or_sub dest parent =
    dest == parent || not (has_colon_or_percent dest) && has_suffix dest (b'.' ∷ parent)

unfoldable pub transport_for : Client → Bytes → Transport
transport_for c scheme =
    if scheme == bytes "https" && c.has_tunnel then Transport.tunneled else Transport.main

-- 301 and 302 on POST, and 303 on what is neither GET nor HEAD
abbrev pub drops_body : ℕ → Bytes → Bool
drops_body status method =
    (eqb status 301 || eqb status 302) && method == post
    || eqb status 303 && not (method == get) && not (method == bytes "HEAD")

-- the chain leaves the initial domain
unfoldable pub is_foreign : Chain → Target → Bool
is_foreign c next =
    not (next.host == c.initial_host) && not (same_domain_or_sub next.hostname c.initial_hostname)

-- the first request's host is the initial one
unfoldable pub at_host : Chain → Target → Chain
at_host c t =
    if is_empty c.initial_host
    then record c { initial_host = t.host; initial_hostname = t.hostname }
    else c

pub data Hop : Type 0 where
  stop : End → Hop
  hop : Chain → Hop

module _ (net : Net) (client : Client) where
  unfoldable pub is_kept : Chain → Bytes → Bool
  is_kept c k =
      not (c.strip_sensitive && is_one_of (net.canonical k) sensitive_names)
      && not (c.dropped_body && is_one_of (net.canonical k) body_names)

  unfoldable pub kept_headers : Chain → List (Bytes × Bytes) → List (Bytes × Bytes)
  unfolding is_kept
  kept_headers c [] = []
  kept_headers c ((k, v) ∷ headers) =
      let rest = kept_headers c headers in if is_kept c k then (k, v) ∷ rest else rest

  unfoldable pub request_of : Chain → Target → List (Bytes × Bytes) → Bytes → Request
  request_of c t headers body = record {
    method = c.method;
    target = t;
    via = transport_for client t.scheme;
    headers = kept_headers c headers;
    body = if c.dropped_body then none else some body;
  }

  unfoldable pub follow : Chain → ℕ → Target → Chain
  follow c status next = record c {
    hops = c.hops + 1;
    method = if drops_body status c.method then get else c.method;
    dropped_body = drops_body status c.method || c.dropped_body;
    strip_sensitive = c.strip_sensitive || is_foreign c next;
    current = next.text;
  }

  unfoldable pub redirected : Chain → ℕ → Option Target → Hop
  redirected c status none = Hop.stop (End.failed Failure.bad_location)
  redirected c status (some next) =
      if not (next.scheme == bytes "http") && not (next.scheme == bytes "https")
      then Hop.stop (End.failed Failure.bad_scheme)
      else if ltb max_redirects (c.hops + 1)
      then Hop.stop (End.failed Failure.too_many)
      else Hop.hop (follow c status next)

  unfoldable pub after_exchange : Chain → Target → Exchange → Hop
  unfolding is_redirect_status redirected
  after_exchange c t (Exchange.broken e) = Hop.stop (End.failed (Failure.transport_error e))
  after_exchange c t (Exchange.answered r) =
      if not (is_redirect_status r.status) || is_empty r.location
      then Hop.stop (End.final r)
      else redirected c r.status (net.resolve t r.location)

  module _ (headers : List (Bytes × Bytes)) (body : Bytes) where
    -- the end of the chain, and the requests that were made
    abbrev pub Run : Type 0
    Run = Option (End × List Request)

    abbrev pub prepend : Request → Run → Run
    prepend r none = none
    prepend r (some (e, rs)) = some (e, r ∷ rs)

    abbrev pub after_hop : Request → (Chain → Run) → Hop → Run
    after_hop r next (Hop.stop e) = some (e, r ∷ [])
    after_hop r next (Hop.hop c) = prepend r (next c)

    abbrev pub visit : (Chain → Run) → Chain → Target → Run
    visit next c t =
        let r = request_of c t headers body in
        if client.follows
        then after_hop r next (after_exchange c t (net.send c.hops r))
        else some (End.handed r, r ∷ [])

    abbrev pub at_target : (Chain → Run) → Chain → Option Target → Run
    at_target next c none = some (End.failed Failure.bad_url, [])
    at_target next c (some t) = visit next (at_host c t) t

    unfoldable pub chain_loop : ℕ → Chain → Run
    chain_loop zero c = none
    chain_loop (suc fuel) c = at_target (λ c'. chain_loop fuel c') c (net.parse c.current)

    abbrev pub start : Bytes → Chain
    start url = record {
      method = post;
      strip_sensitive = false;
      dropped_body = false;
      initial_host = [];
      initial_hostname = [];
      hops = 0;
      current = url;
    }

    unfoldable pub attempt : Bytes → Run
    attempt url = chain_loop (max_redirects + 1) (start url)
