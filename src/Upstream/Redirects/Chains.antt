-- ===== src/Upstream/Redirects/Chains.antt =====
-- One round of the redirect loop, and that the loop ends.
use ocfp.Prelude.{
  ℕ, zero, suc, ap, ◌∙◌, ◌+◌, ◌≤◌, ◌≡◌, inl, inr, refl, not, ◌&&◌, ◌||◌, Option, none, some, List,
  [], ◌∷◌, Bytes, bytes, ◌==◌, ltb, length, arith, Bool-cases,
}
use ocfp.Config.Validate.{is_empty}
use ocfp.Upstream.Redirects.{
  Net, Client, Target, Request, Exchange, End, Chain, Hop, max_redirects, is_redirect_status,
  Failure, at_host, request_of, follow, redirected, after_exchange, prepend, after_hop, visit,
  at_target, chain_loop, start, attempt, Run,
}

module _ (net : Net) (client : Client) where
  -- A chain that goes on has followed a Location that resolves, within the cap.
  abbrev pub IsFollowed : Chain → Target → Hop → Type 0
  IsFollowed c t (Hop.stop e) = Unit
  IsFollowed c t (Hop.hop c') =
      (status : ℕ) × (location : Bytes) × (next : Target) × (net.resolve t location ≡ some next)
      × (c.hops + 1 ≤ max_redirects)
      × (c' ≡ follow net client c status next)

  redirected-IsFollowed :
      (c : Chain) (t : Target) (status : ℕ) (location : Bytes) (o : Option Target)
      → net.resolve t location ≡ o
      → IsFollowed c t (redirected net client c status o)
  unfolding redirected
  redirected-IsFollowed c t status location none h = tt
  redirected-IsFollowed c t status location (some next) h =
      elim (Bool-cases (not (next.scheme == bytes "http") && not (next.scheme == bytes "https"))) [
        | inl e ↦ rw e tt
        | inr e ↦ elim (Bool-cases (ltb max_redirects (c.hops + 1))) [
          | inl f ↦ rw (e, f) tt
          | inr f ↦ rw (e, f) (status, location, next, h, ground arith, refl)
        ]
      ]

  pub after_exchange-IsFollowed :
      (c : Chain) (t : Target) (x : Exchange) → IsFollowed c t (after_exchange net client c t x)
  unfolding after_exchange
  after_exchange-IsFollowed c t (Exchange.broken e) = tt
  after_exchange-IsFollowed c t (Exchange.answered r) =
      elim (Bool-cases (not (is_redirect_status r.status) || is_empty r.location)) [
        | inl e ↦ rw e tt
        | inr e ↦
            rw e (redirected-IsFollowed c t r.status r.location (net.resolve t r.location) refl)
      ]

  module _ (headers : List (Bytes × Bytes)) (body : Bytes) where
    abbrev Ends : ℕ → Run net client headers body → Type 0
    Ends hops run =
        (e : End) × (rs : List Request) × (run ≡ some (e, rs))
        × (length rs + hops ≤ max_redirects + 1)

    prepend-Ends :
        (n : ℕ) (r : Request) (run : Run net client headers body)
        → Ends (n + 1) run
        → Ends n (prepend net client headers body r run)
    prepend-Ends n r none (e, rs, f, few) = cc
    prepend-Ends n r (some (e', rs')) (e, rs, f, few) =
        let same : rs' ≡ rs = cc in (e', r ∷ rs', refl, omega (arith, ap length same))

    abbrev Later : ℕ → (Chain → Run net client headers body) → Type 0
    Later n next = (c : Chain) → c.hops ≡ n + 1 → n + 1 ≤ max_redirects → Ends (n + 1) (next c)

    after_hop-Ends :
        (n : ℕ) (r : Request) (c : Chain) (t : Target) (h : Hop)
        (next : Chain → Run net client headers body)
        → c.hops ≡ n
        → n ≤ max_redirects
        → Later n next
        → IsFollowed c t h
        → Ends n (after_hop net client headers body r next h)
    after_hop-Ends n r c t (Hop.stop e) next at l later f = (e, r ∷ [], refl, omega arith)
    after_hop-Ends n r c t (Hop.hop c') next at l later (status, location, to, _, below, same) =
        let up : c'.hops ≡ c.hops + 1 = unfold follow in ap (λ (d : Chain). d.hops) same in
        prepend-Ends n r (next c') (later c' (omega (arith, up)) (omega arith))

    visit-Ends :
        (n : ℕ) (next : Chain → Run net client headers body) (c : Chain) (t : Target)
        → c.hops ≡ n
        → n ≤ max_redirects
        → Later n next
        → Ends n (visit net client headers body next c t)
    visit-Ends n next c t at l later =
        let r = request_of net client c t headers body in
        elim (Bool-cases client.follows) [
          | inl e ↦ simp (e) (
              after_hop-Ends n r c t (after_exchange net client c t (net.send c.hops r)) next at l
                later (after_exchange-IsFollowed c t (net.send c.hops r)))
          | inr e ↦ simp (e) (End.handed r, r ∷ [], refl, omega arith)
        ]

    at_host_hops : (c : Chain) (t : Target) → (at_host c t).hops ≡ c.hops
    unfolding at_host
    at_host_hops c t = ground arith

    at_target-Ends :
        (n : ℕ) (next : Chain → Run net client headers body) (c : Chain) (o : Option Target)
        → c.hops ≡ n
        → n ≤ max_redirects
        → Later n next
        → Ends n (at_target net client headers body next c o)
    at_target-Ends n next c none at l later = (End.failed Failure.bad_url, [], refl, omega arith)
    at_target-Ends n next c (some t) at l later =
        visit-Ends n next (at_host c t) t (at_host_hops c t ∙ at) l later

    chain_loop-Ends :
        (fuel n : ℕ) (c : Chain)
        → c.hops ≡ n
        → n + fuel ≡ max_redirects + 1
        → n ≤ max_redirects
        → Ends n (chain_loop net client headers body fuel c)
    unfolding chain_loop
    chain_loop-Ends zero n c at e l = absurd (omega arith)
    chain_loop-Ends (suc fuel) n c at e l =
        at_target-Ends n (λ c'. chain_loop net client headers body fuel c') c (net.parse c.current)
          at l (λ c' up l'. chain_loop-Ends fuel (n + 1) c' up (omega arith) l')

    -- Whatever the network answers, the redirect loop ends, after at most 21 requests.
    pub attempt_ends :
        (url : Bytes)
        → (e : End) × (rs : List Request) × (attempt net client headers body url ≡ some (e, rs))
          × (length rs ≤ max_redirects + 1)
    unfolding attempt
    attempt_ends url =
        let (e, rs, f, few) =
          chain_loop-Ends (max_redirects + 1) 0 (start net client headers body url) refl refl
            (omega arith) in
        (e, rs, f, omega (arith, few))
