-- ===== src/Upstream/Client/Retries.antt =====
-- The retry loop ends within four dials, and returns the verdict of its last dial.
use ocfp.Prelude.{
  ℕ, zero, suc, ◌+◌, ◌≤◌, ◌≡◌, ◌⊎◌, inl, inr, refl, Bool, true, Option, none, some, Bytes, arith,
  leb, if◌then◌else◌,
}
use ocfp.Upstream.Failure.{Class, NetError, classify_net_err_for, classify_status_for}
use ocfp.Upstream.ErrorBody.{ErrorBody, parse_upstream_error}
use ocfp.Upstream.Recorder.{Row, Recorder, append}
use ocfp.Upstream.Client.{
  Dial, Outcome, Reply, Turn, RetryRule, retry_rule, try_retry, failed_turn, final_turn,
  answered_turn, dial_turn, is_proxy_auth, one_dial, append_if, settle, dial_loop, do_classified,
  max_dials,
}

module _ (decode : Bytes → Option ErrorBody) where
  -- What one dial means for the caller if it is not repeated.
  abbrev pub verdict : Dial → Outcome → Reply
  verdict d (Outcome.failed e) =
      Reply.fail (record { status = 502; message = e.message })
        (classify_net_err_for d.done_at_class e)
  verdict d (Outcome.answered status raw) =
      if leb 400 status
      then Reply.fail (parse_upstream_error decode status raw) (classify_status_for status)
      else Reply.serve status

  -- A turn that repeats has drawn one more of at most three; one that stops returns the verdict.
  abbrev Sound : Reply → ℕ → Turn → Type 0
  Sound v used (Turn.again used' row) = (used' ≡ used + 1) × (used' ≤ 3)
  Sound v used (Turn.stop row reply) = reply ≡ v

  failed_turn-Sound :
      (done : Bool) (used dial : ℕ) (e : NetError) (c : Class)
      → Sound
          (Reply.fail (record { status = 502; message = e.message }) c)
          used
          (failed_turn done used dial e c)
  unfolding failed_turn try_retry
  failed_turn-Sound done used dial e c = ground arith

  final_turn-Sound :
      (d : Dial) (used dial status : ℕ) (raw : Bytes)
      → Sound
          (verdict d (Outcome.answered status raw))
          used
          (final_turn decode used dial status raw)
  unfolding final_turn
  final_turn-Sound d used dial status raw = ground arith

  retry_rule-attempts :
      (status : ℕ) {rule : RetryRule} → retry_rule status ≡ some rule → rule.attempts ≤ 3
  unfolding retry_rule
  retry_rule-attempts status h = ground arith

  answered_turn-Sound :
      (d : Dial) (used dial status : ℕ) (raw : Bytes) (rule : Option RetryRule)
      → retry_rule status ≡ rule
      → Sound
          (verdict d (Outcome.answered status raw))
          used
          (answered_turn decode d.done_at_retry used dial status raw rule)
  unfolding answered_turn try_retry
  answered_turn-Sound d used dial status raw none h = final_turn-Sound d used dial status raw
  answered_turn-Sound d used dial status raw (some rule) h =
      ground (arith, retry_rule-attempts status h, final_turn-Sound d used dial status raw)

  dial_turn-Sound :
      (d : Dial) (o : Outcome) (used dial : ℕ)
      → Sound (verdict d o) used (dial_turn decode d o used dial)
  unfolding dial_turn
  dial_turn-Sound d (Outcome.failed e) used dial =
      failed_turn-Sound d.done_at_retry used dial e (classify_net_err_for d.done_at_class e)
  dial_turn-Sound d (Outcome.answered status raw) used dial =
      answered_turn-Sound d used dial status raw (retry_rule status) refl

  one_dial-Sound :
      (d : Dial) (used dial : ℕ) → Sound (verdict d d.outcome) used (one_dial decode d used dial)
  unfolding one_dial
  one_dial-Sound d used dial = dial_turn-Sound d d.outcome used dial

  Turn-cases :
      (t : Turn)
      → ((u : ℕ) × (row : Row) × (t ≡ Turn.again u row))
        ⊎ ((row : Option Row) × (reply : Reply) × (t ≡ Turn.stop row reply))
  Turn-cases (Turn.again u row) = inl (u, row, refl)
  Turn-cases (Turn.stop row reply) = inr (row, reply, refl)

  -- A run of the loop that ends with its dial n.
  abbrev Ends : (ℕ → Dial) → ℕ → ℕ → Option (Reply × Recorder × ℕ) → Type 0
  Ends net used dial result =
      (reply : Reply) × (rec : Recorder) × (n : ℕ) × (result ≡ some (reply, rec, n))
      × (dial + 1 ≤ n)
      × (n + used ≤ dial + max_dials)
      × (reply ≡ verdict (net n) (net n).outcome)

  settle-Ends :
      (net : ℕ → Dial) (used dial : ℕ) (rec : Recorder)
      (next : ℕ → Row → Option (Reply × Recorder × ℕ))
      → ((u : ℕ) (row : Row) → u ≡ used + 1 → u ≤ 3 → Ends net u (dial + 1) (next u row))
      → (t : Turn) → Sound (verdict (net (dial + 1)) (net (dial + 1)).outcome) used t
      → used ≤ 3
      → Ends net used dial (settle decode rec (dial + 1) next t)
  settle-Ends net used dial rec next later (Turn.again u row) (drawn, few) l =
      let (reply, rec', n, f, lo, hi, v) = later u row drawn few in
      (reply, rec', n, f, omega arith, omega arith, v)
  settle-Ends net used dial rec next later (Turn.stop row reply) same l =
      (reply, append_if decode rec row, dial + 1, refl, omega arith, omega arith, same)

  dial_loop-Ends :
      (fuel : ℕ) (net : ℕ → Dial) (used dial : ℕ) (rec : Recorder)
      → used + fuel ≡ max_dials
      → used ≤ 3
      → Ends net used dial (dial_loop decode fuel net used dial rec)
  unfolding dial_loop
  dial_loop-Ends zero net used dial rec e l = absurd (omega arith)
  dial_loop-Ends (suc fuel) net used dial rec e l =
      let next = λ (u : ℕ) (row : Row). dial_loop decode fuel net u (dial + 1) (append rec row) in
      settle-Ends net used dial rec next
        (λ u row drawn few. dial_loop-Ends fuel net u (dial + 1) (append rec row) (omega arith) few)
        (one_dial decode (net (dial + 1)) used (dial + 1))
        (one_dial-Sound (net (dial + 1)) used (dial + 1)) l

  -- Whatever the network answers, the call on one egress returns after at least one and at most four
  -- dials, and its reply is the verdict of the last one: the response if its status is below 400, and
  -- else the error of that response, or the transport error under status 502, with its class.
  pub do_classified-verdict :
      (net : ℕ → Dial) (rec : Recorder)
      → (reply : Reply) × (rec' : Recorder) × (n : ℕ) × (do_classified decode net rec
          ≡ some (reply, rec', n))
        × (1 ≤ n)
        × (n ≤ max_dials)
        × (reply ≡ verdict (net n) (net n).outcome)
  unfolding do_classified
  do_classified-verdict net rec =
      let (reply, rec', n, f, lo, hi, v) =
        dial_loop-Ends max_dials net 0 0 rec refl (omega arith) in
      (reply, rec', n, f, lo, omega arith, v)

  -- the first dial is not worth another: the rate limit, a status that no rule names, a refusal by
  -- the proxy, or a request that is over
  abbrev pub IsTerminal : Dial → Outcome → Type 0
  IsTerminal d (Outcome.failed e) =
      (classify_net_err_for d.done_at_class e ≡ Class.proxy_auth_error) ⊎ (d.done_at_retry ≡ true)
  IsTerminal d (Outcome.answered status raw) =
      (status ≡ 429) ⊎ (retry_rule status ≡ none) ⊎ (d.done_at_retry ≡ true)

  failed_turn_terminal :
      (d : Dial) (used dial : ℕ) (e : NetError) (u : ℕ) (row : Row)
      → IsTerminal d (Outcome.failed e)
      → failed_turn d.done_at_retry used dial e (classify_net_err_for d.done_at_class e)
        ≡ Turn.again u row
      → ⊥
  unfolding failed_turn try_retry is_proxy_auth
  failed_turn_terminal d used dial e u row h t = ground arith

  answered_turn_terminal :
      (d : Dial) (used dial status : ℕ) (raw : Bytes) (u : ℕ) (row : Row)
      → IsTerminal d (Outcome.answered status raw)
      → answered_turn decode d.done_at_retry used dial status raw (retry_rule status)
        ≡ Turn.again u row
      → ⊥
  unfolding answered_turn final_turn try_retry retry_rule
  answered_turn_terminal d used dial status raw u row h t = ground arith

  dial_turn_terminal :
      (d : Dial) (o : Outcome) (used dial : ℕ) (u : ℕ) (row : Row)
      → IsTerminal d o
      → dial_turn decode d o used dial ≡ Turn.again u row
      → ⊥
  unfolding dial_turn
  dial_turn_terminal d (Outcome.failed e) used dial u row h t =
      failed_turn_terminal d used dial e u row h t
  dial_turn_terminal d (Outcome.answered status raw) used dial u row h t =
      answered_turn_terminal d used dial status raw u row h t

  settle_stops :
      (v : Reply) (used : ℕ) (rec : Recorder) (n : ℕ)
      (next : ℕ → Row → Option (Reply × Recorder × ℕ)) (t : Turn)
      → ((u : ℕ) (row : Row) → t ≡ Turn.again u row → ⊥)
      → Sound v used t
      → (rec' : Recorder) × (settle decode rec n next t ≡ some (v, rec', n))
  settle_stops v used rec n next (Turn.again u row) never sound = absurd (never u row refl)
  settle_stops v used rec n next (Turn.stop row reply) never sound = (append_if decode rec row, cc)

  -- A first dial that the rate limit answers, a status that no rule names, a refusal by the proxy, or
  -- a request that is over ends the call: one dial, and its verdict.
  pub do_classified_once :
      (net : ℕ → Dial) (rec : Recorder)
      → IsTerminal (net 1) (net 1).outcome
      → (rec' : Recorder) × (do_classified decode net rec
          ≡ some (verdict (net 1) (net 1).outcome, rec', 1))
  unfolding do_classified dial_loop one_dial
  do_classified_once net rec h =
      settle_stops (verdict (net 1) (net 1).outcome) 0 rec 1
        (λ used row. dial_loop decode 3 net used 1 (append rec row)) (one_dial decode (net 1) 0 1)
        (λ u row t. dial_turn_terminal (net 1) (net 1).outcome 0 1 u row h t)
        (one_dial-Sound (net 1) 0 1)
