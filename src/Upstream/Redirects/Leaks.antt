-- ===== src/Upstream/Redirects/Leaks.antt =====
-- What the requests of a redirect chain carry: no credential behind a change of domain, no body behind a
-- change of method, and no https target outside the tunnel.
use ocfp.Prelude.{◌≡◌, Bool, some, List, Bytes}
use ocfp.Upstream.Redirects.{Net, Client, Target, Request, End, Chain, Run}
use ocfp.Upstream.Redirects.Away.{IsReparsed}
use ocfp.Upstream.Redirects.Discreet.{IsDiscreet, Ready, Lands}

module _ (net : Net) (client : Client) where
  module _ (headers : List (Bytes × Bytes)) (body : Bytes) (first : Target) where
    -- What every run of the loop from here on is worth.
    abbrev IsSound : Bool → Bool → Run net client headers body → Type 0
    IsSound strip dropped run =
        (e : End) (rs : List Request)
        → run ≡ some (e, rs)
        → IsDiscreet net client headers body first strip dropped rs

    -- http.NewRequest parses the text of a resolved Location again, as a target on the same host, less a colon
    -- at its end with no port behind it.
    abbrev pub Reparses : Type 0
    Reparses =
        (base : Target) (location : Bytes) (next t : Target)
        → net.resolve base location ≡ some next
        → net.parse next.text ≡ some t
        → IsReparsed next t

    abbrev Later : (Chain → Run net client headers body) → Type 0
    Later next =
        (c : Chain) (strip dropped : Bool)
        → Ready net client headers body first c strip dropped
        → ((t : Target) → net.parse c.current ≡ some t → Lands net client headers body first c t)
        → IsSound strip dropped (next c)
