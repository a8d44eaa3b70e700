-- ===== src/Upstream/Redirects/Discreet.antt =====
-- What one request of a redirect chain carries, and what a hop keeps of it.
use ocfp.Prelude.{
  ℕ, ap, ◌∙◌, ◌≡◌, ◌⊎◌, inl, inr, refl, Bool, true, false, ◌||◌, none, some, List, [], ◌∷◌, Bytes,
  bytes, ◌==◌, eq_refl, arith, Bool-cases,
}
use ocfp.Config.Validate.Sets.{All}
use ocfp.Upstream.Redirects.{
  Net, Client, Target, Transport, Request, Chain, post, get, sensitive_names, body_names, is_one_of,
  transport_for, drops_body, is_foreign, is_kept, kept_headers, request_of, follow,
}
use ocfp.Upstream.Redirects.Away.{is_away, IsReparsed, IsPlain, is_away_before}

module _ (net : Net) (client : Client) where
  -- No header of the request has one of these names.
  abbrev pub Lacks : List Bytes → List (Bytes × Bytes) → Type 0
  Lacks names headers =
      All (λ (h : Bytes × Bytes). is_one_of (net.canonical h.0) names ≡ false) headers

  kept_headers-Lacks :
      (c : Chain) (headers : List (Bytes × Bytes))
      → (c.strip_sensitive ≡ true → Lacks sensitive_names (kept_headers net client c headers))
        × (c.dropped_body ≡ true → Lacks body_names (kept_headers net client c headers))
  unfolding kept_headers
  kept_headers-Lacks c [] = (λ e. tt, λ e. tt)
  kept_headers-Lacks c ((k, v) ∷ headers) =
      let (s, d) = kept_headers-Lacks c headers in
      elim (Bool-cases (is_kept net client c k)) [
        | inl e ↦ rw e (unfold is_kept in (λ f. (ground arith, s f), λ f. (ground arith, d f)))
        | inr e ↦ rw e (s, d)
      ]

  module _ (headers : List (Bytes × Bytes)) (body : Bytes) (first : Target) where
    -- Of the requests behind one that was away (`strip`) or had no body (`dropped`): those that are away
    -- or behind one that was carry no credentials; those that are GET or behind one that was have no
    -- body and no header that describes one, and the others are the POST of the body; and a client with
    -- a tunnel sends each https request through it.
    abbrev pub IsQuiet : Bool → Bool → Request → Type 0
    IsQuiet away without r =
        (away ≡ true → Lacks sensitive_names r.headers)
        × (without ≡ true → (r.method ≡ get) × (r.body ≡ none) × Lacks body_names r.headers)
        × (without ≡ false → (r.method ≡ post) × (r.body ≡ some body))
        × (client.has_tunnel ≡ true → r.target.scheme ≡ bytes "https" → r.via ≡ Transport.tunneled)

    abbrev pub IsDiscreet : Bool → Bool → List Request → Type 0
    IsDiscreet strip dropped [] = Unit
    IsDiscreet strip dropped (r ∷ rs) =
        IsQuiet (strip || is_away first r.target) (dropped || r.method == get) r
        × IsDiscreet (strip || is_away first r.target) (dropped || r.method == get) rs

    pub record Ready (c : Chain) (strip dropped : Bool) : Type 0 where
      pub host : c.initial_host ≡ first.host
      pub hostname : c.initial_hostname ≡ first.hostname
      pub stripped : strip ≡ true → c.strip_sensitive ≡ true
      pub method :
          (dropped ≡ false) × (c.dropped_body ≡ false) × (c.method ≡ post)
          ⊎ (c.dropped_body ≡ true) × (c.method ≡ get)

    -- The chain's next target is away only if the chain strips.
    abbrev pub Lands : Chain → Target → Type 0
    Lands c t = is_away first t ≡ true → c.strip_sensitive ≡ true

    get-post : get == post ≡ false
    unfolding ◌==◌
    get-post = refl

    post-get : post == get ≡ false
    unfolding ◌==◌
    post-get = refl

    strips :
        (c : Chain) (t : Target) (strip dropped : Bool)
        → Ready c strip dropped
        → Lands c t
        → strip || is_away first t ≡ true
        → c.strip_sensitive ≡ true
    strips c t true dropped ready lands e = ready.stripped refl
    strips c t false dropped ready lands e = lands e

    or_right : (a b : Bool) → b ≡ true → a || b ≡ true
    or_right true b e = refl
    or_right false b e = e

    drops :
        (c : Chain) (strip dropped : Bool)
        → Ready c strip dropped
        → (dropped || c.method == get ≡ true → (c.method ≡ get) × (c.dropped_body ≡ true))
          × (dropped || c.method == get ≡ false → (c.method ≡ post) × (c.dropped_body ≡ false))
    drops c strip dropped ready = elim ready.method [
      | inl (n, b, m) ↦ (λ e. cc (e, n, m, post-get), λ e. (m, b))
      | inr (b, m) ↦ (
        λ e. (m, b),
        λ e. cc (e, or_right dropped (c.method == get) (ap (λ k. k == get) m ∙ eq_refl get)),
      )
    ]

    pub request_of-IsQuiet :
        (c : Chain) (t : Target) (strip dropped : Bool)
        → Ready c strip dropped
        → Lands c t
        → IsQuiet
            (strip || is_away first t)
            (dropped || c.method == get)
            (request_of net client c t headers body)
    unfolding request_of transport_for ◌==◌
    request_of-IsQuiet c t strip dropped ready lands =
        let (s, d) = kept_headers-Lacks c headers in
        let (gone, kept) = drops c strip dropped ready in
        (
          λ e. s (strips c t strip dropped ready lands e),
          λ e. ((gone e).0, rw ((gone e).1) refl, d ((gone e).1)),
          λ e. ((kept e).0, rw ((kept e).1) refl),
          λ e f. rw (e, f) refl,
        )

    follow_method :
        (c : Chain) (status : ℕ) (next : Target) (strip dropped dropped' : Bool)
        → Ready c strip dropped
        → (dropped' ≡ true → c.dropped_body ≡ true)
        → (dropped' ≡ false)
            × ((follow net client c status next).dropped_body ≡ false)
            × ((follow net client c status next).method ≡ post)
          ⊎ ((follow net client c status next).dropped_body ≡ true)
            × ((follow net client c status next).method ≡ get)
    unfolding follow
    follow_method c status next strip dropped dropped' ready h =
        elim (Bool-cases (drops_body status c.method)) [
          | inl e ↦ rw e (inr (refl, refl))
          | inr e ↦ rw e (elim ready.method [
            | inl (n, b, m) ↦ elim (Bool-cases dropped') [
              | inl f ↦ cc (h f, b)
              | inr f ↦ inl (f, b, m)
            ]
            | inr (b, m) ↦ inr (b, m)
          ])
        ]

    pub follow-Ready :
        (c : Chain) (status : ℕ) (t next : Target) (strip dropped : Bool)
        → Ready c strip dropped
        → Lands c t
        → Ready
            (follow net client c status next)
            (strip || is_away first t)
            (dropped || c.method == get)
    follow-Ready c status t next strip dropped ready lands = record {
      host = unfold follow in ready.host;
      hostname = unfold follow in ready.hostname;
      stripped = λ e. unfold follow in rw (strips c t strip dropped ready lands e) refl;
      method =
          follow_method c status next strip dropped (dropped || c.method == get) ready
            (λ e. ((drops c strip dropped ready).0 e).1);
    }

    pub follow-Lands :
        (c : Chain) (status : ℕ) (next t : Target) (strip dropped : Bool)
        → Ready c strip dropped
        → IsPlain first
        → IsReparsed next t
        → Lands (follow net client c status next) t
    unfolding follow is_foreign
    follow-Lands c status next t strip dropped ready p r e =
        or_right c.strip_sensitive (is_foreign c next)
          (rw (ready.host, ready.hostname) (is_away_before first next t p r e))
