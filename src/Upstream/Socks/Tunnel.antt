-- ===== src/Upstream/Socks/Tunnel.antt =====
-- A handshake takes the proxy's answers, whole, and nothing behind them.
use ocfp.Prelude.{
  ℕ, ◌+◌, ◌-◌, ◌%◌, ◌≤◌, ◌≡◌, refl, ap, ◌∙◌, subst, Bool, true, [], ◌∷◌, ◌++◌, Bytes, leb,
  if◌then◌else◌, length, length-append, take, drop, arith,
}
use ocfp.Upstream.Socks.{
  Address, DialError, byte_at, Conn, Outcome, read_full, write_all, and_then, address_bytes,
  request, skip_bound, after_head, ask,
}
use ocfp.Upstream.Socks.Requests.{IsAddress, take-append, drop-append}

-- a reply that grants the request, with the bound address and port
abbrev pub reply : ℕ → Address → ℕ → ℕ → Bytes
reply reserved bound hi lo = 5 ∷ 0 ∷ reserved ∷ (address_bytes bound ++ hi ∷ lo ∷ [])

pub read_full-append :
    (n : ℕ) (b : Bytes) (c : Conn) (rest : Bytes)
    → length b ≡ n
    → c.incoming ≡ b ++ rest
    → read_full n c ≡ Outcome.done b (record c { incoming = rest })
unfolding read_full
read_full-append n b c rest e i =
    let enough : leb n (length c.incoming) ≡ true =
      let size : length c.incoming ≡ length b + length rest = ap length i ∙ length-append b rest in
      ground (arith, size, e) in
    let taken : take n c.incoming ≡ b =
      ap (take n) i ∙ subst (λ k. take k (b ++ rest) ≡ b) e (take-append b rest) in
    let left : drop n c.incoming ≡ rest =
      ap (drop n) i ∙ subst (λ k. drop k (b ++ rest) ≡ rest) e (drop-append b rest) in
    ap
      (λ (x : Bool).
        if x
        then Outcome.done (take n c.incoming) (record c { incoming = drop n c.incoming })
        else Outcome.failed DialError.short_read)
      enough
    ∙ ap (λ (x : Bytes). Outcome.done x (record c { incoming = drop n c.incoming })) taken
    ∙ ap (λ (x : Bytes). Outcome.done b (record c { incoming = x })) left

pub write_all-fits :
    (b : Bytes) (c : Conn)
    → length b ≤ c.writable
    → write_all b c
      ≡ Outcome.done tt (record c { sent = c.sent ++ b; writable = c.writable - length b })
unfolding write_all
write_all-fits b c h =
    let enough : leb (length b) c.writable ≡ true = ground (arith, h) in
    ap
      (λ (x : Bool).
        if x
        then Outcome.done tt (record c { sent = c.sent ++ b; writable = c.writable - length b })
        else Outcome.failed DialError.write_failed)
      enough

skip_bound-append :
    (n : ℕ) (tail : Bytes) (c : Conn) (rest : Bytes)
    → length tail ≡ n + 2
    → c.incoming ≡ tail ++ rest
    → skip_bound n c ≡ Outcome.done tt (record c { incoming = rest })
unfolding skip_bound
skip_bound-append n tail c rest e i =
    ap (λ (o : Outcome Bytes). and_then o (λ b c'. Outcome.done tt c'))
      (read_full-append (n + 2) tail c rest e i)

tail-length : (b : Bytes) (hi lo n : ℕ) → length b ≡ n → length (b ++ hi ∷ lo ∷ []) ≡ n + 2
tail-length b hi lo n e = length-append b (hi ∷ lo ∷ []) ∙ omega (arith, e)

head_of : ℕ → Address → Bytes
head_of r (Address.v4 b) = 5 ∷ 0 ∷ r ∷ 1 ∷ []
head_of r (Address.v6 b) = 5 ∷ 0 ∷ r ∷ 4 ∷ []
head_of r (Address.name s) = 5 ∷ 0 ∷ r ∷ 3 ∷ []

tail_of : Address → ℕ → ℕ → Bytes
tail_of (Address.v4 b) hi lo = b ++ hi ∷ lo ∷ []
tail_of (Address.v6 b) hi lo = b ++ hi ∷ lo ∷ []
tail_of (Address.name s) hi lo = length s % 256 ∷ (s ++ hi ∷ lo ∷ [])

after_head-tail_of :
    (r : ℕ) (bound : Address) (hi lo : ℕ) (c : Conn) (rest : Bytes)
    → IsAddress bound
    → c.incoming ≡ tail_of bound hi lo ++ rest
    → after_head (head_of r bound) c ≡ Outcome.done tt (record c { incoming = rest })
unfolding IsAddress head_of tail_of after_head
after_head-tail_of r (Address.v4 b) hi lo c rest e i =
    skip_bound-append 4 (b ++ hi ∷ lo ∷ []) c rest (tail-length b hi lo 4 e) i
after_head-tail_of r (Address.v6 b) hi lo c rest e i =
    skip_bound-append 16 (b ++ hi ∷ lo ∷ []) c rest (tail-length b hi lo 16 e) i
after_head-tail_of r (Address.name s) hi lo c rest h i =
    ap (λ (o : Outcome Bytes). and_then o (λ l c'. skip_bound (byte_at l 0) c'))
      (read_full-append 1 (length s % 256 ∷ []) c ((s ++ hi ∷ lo ∷ []) ++ rest) refl i)
    ∙ skip_bound-append (length s % 256) (s ++ hi ∷ lo ∷ [])
        (record c { incoming = (s ++ hi ∷ lo ∷ []) ++ rest }) rest
        (tail-length s hi lo (length s % 256) (omega (arith, h))) refl

-- the connection behind a granted request
abbrev pub granted : Conn → Address → ℕ → Bytes → Conn
granted c a port rest = record {
  incoming = rest;
  sent = c.sent ++ request a port;
  writable = c.writable - length (request a port);
}

head-tail :
    (r : ℕ) (bound : Address) (hi lo : ℕ) (rest : Bytes)
    → reply r bound hi lo ++ rest ≡ head_of r bound ++ (tail_of bound hi lo ++ rest)
unfolding head_of tail_of
head-tail r (Address.v4 b) hi lo rest = refl
head-tail r (Address.v6 b) hi lo rest = refl
head-tail r (Address.name s) hi lo rest = refl

head-length : (r : ℕ) (bound : Address) → length (head_of r bound) ≡ 4
unfolding head_of
head-length r (Address.v4 b) = refl
head-length r (Address.v6 b) = refl
head-length r (Address.name s) = refl

pub ask-granted :
    (a : Address) (port : ℕ) (c : Conn) (r : ℕ) (bound : Address) (hi lo : ℕ) (rest : Bytes)
    → length (request a port) ≤ c.writable
    → IsAddress bound
    → c.incoming ≡ reply r bound hi lo ++ rest
    → ask a port c ≡ Outcome.done tt (granted c a port rest)
unfolding ask
ask-granted a port c r bound hi lo rest room good i =
    let c' = record c {
      sent = c.sent ++ request a port;
      writable = c.writable - length (request a port);
    } in
    ap (λ (o : Outcome (Unit {0})). and_then o (λ _ c'. and_then (read_full 4 c') after_head))
      (write_all-fits (request a port) c room)
    ∙ ap (λ (o : Outcome Bytes). and_then o after_head)
        (read_full-append 4 (head_of r bound) c' (tail_of bound hi lo ++ rest) (head-length r bound)
          (i ∙ head-tail r bound hi lo rest))
    ∙ after_head-tail_of r bound hi lo (record c' { incoming = tail_of bound hi lo ++ rest }) rest
        good refl
