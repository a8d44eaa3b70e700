-- ===== src/Upstream/Client.antt =====
-- DoClassifiedObserved of internal/upstream/client.go: the dials of one egress under the retry rules.
-- What the network and the context answer at each dial is a parameter.
pub mod Retries
use ocfp.Prelude.{
  ℕ, zero, suc, ◌+◌, ◌*◌, [], Bool, true, false, ◌||◌, not, Option, none, some, Bytes, bytes, ltb,
  leb, eqb, if◌then◌else◌,
}
use ocfp.Config.File.{second}
use ocfp.Upstream.Failure.{Class, NetError, class_name, classify_net_err_for, classify_status_for}
use ocfp.Upstream.ErrorBody.{ErrorBody, UpstreamError, parse_upstream_error}
use ocfp.Upstream.Recorder.{Row, Recorder, append}

pub record RetryRule : Type 0 where
  pub attempts : ℕ
  pub delay : ℕ

abbrev pub bad_gateway : RetryRule
bad_gateway = record { attempts = 3; delay = 3 * second }

-- config.RetryRules
unfoldable pub retry_rule : ℕ → Option RetryRule
retry_rule status =
    if eqb status 429
    then some record { attempts = 0; delay = 0 }
    else if eqb status 502
    then some bad_gateway
    else if eqb status 503
    then some record { attempts = 3; delay = 2 * second }
    else if eqb status 504
    then some record { attempts = 2; delay = 3 * second }
    else none

-- whether to retry, and the draws from the budget that all rules share
unfoldable pub try_retry : Bool → ℕ → RetryRule → ℕ × Bool
try_retry ctx_done used rule =
    if ctx_done
    then (used, false)
    else if leb rule.attempts used
    then (used, false)
    else (used + 1, true)

-- what c.attempt returns: an error, or a status and the body up to the cap
pub data Outcome : Type 0 where
  failed : NetError → Outcome
  answered : ℕ → Bytes → Outcome

-- one dial, and whether the context is done when its failure is classified and when a retry is decided
pub record Dial : Type 0 where
  pub outcome : Outcome
  pub done_at_class : Bool
  pub done_at_retry : Bool

pub data Reply : Type 0 where
  serve : ℕ → Reply
  fail : UpstreamError → Class → Reply

abbrev pub blank_row : Row
blank_row = record {
  phase = [];
  egress = [];
  egress_type = [];
  attempt = 0;
  dial = 0;
  reason = [];
  status = 0;
  class = [];
  matrix_draws = 0;
  retried = false;
  retry_delay = 0;
  in_flight = 0;
  health_decision = [];
  retry_decision = [];
}

abbrev decision_of : Bool → Bytes
decision_of retried = if retried then bytes "retry_same_egress" else []

unfoldable pub transport_row : ℕ → ℕ → Bool → ℕ → Class → Row
transport_row dial draws retried delay class = record blank_row {
  phase = bytes "transport";
  dial = dial;
  class = class_name class;
  matrix_draws = draws;
  retried = retried;
  retry_delay = delay;
  retry_decision = decision_of retried;
}

unfoldable pub response_row : ℕ → ℕ → Bool → ℕ → ℕ → Class → Row
response_row dial draws retried delay status class = record blank_row {
  phase = bytes "response";
  dial = dial;
  status = status;
  class = class_name class;
  matrix_draws = draws;
  retried = retried;
  retry_delay = delay;
  retry_decision = decision_of retried;
}

-- how one turn of the loop ends: another dial, with the draws so far, or a reply; with the row, if any
pub data Turn : Type 0 where
  again : ℕ → Row → Turn
  stop : Option Row → Reply → Turn

unfoldable pub is_proxy_auth : Class → Bool
is_proxy_auth Class.proxy_auth_error = true
is_proxy_auth _ = false

unfoldable pub failed_turn : Bool → ℕ → ℕ → NetError → Class → Turn
unfolding is_proxy_auth
failed_turn done_at_retry used dial e class =
    let reply = Reply.fail (record { status = 502; message = e.message }) class in
    let (used', retry) = try_retry done_at_retry used bad_gateway in
    if is_proxy_auth class
    then Turn.stop (some (transport_row dial used false 0 class)) reply
    else if retry
    then Turn.again used' (transport_row dial used' true bad_gateway.delay class)
    else Turn.stop (some (transport_row dial used' false 0 class)) reply

abbrev pub max_dials : ℕ
max_dials = 4

module _ (decode : Bytes → Option ErrorBody) where
  -- a response that is not retried
  unfoldable pub final_turn : ℕ → ℕ → ℕ → Bytes → Turn
  final_turn used dial status raw =
      let class = classify_status_for status in
      if leb 400 status
      then Turn.stop (some (response_row dial used false 0 status class))
          (Reply.fail (parse_upstream_error decode status raw) class)
      else Turn.stop none (Reply.serve status)

  unfoldable pub answered_turn : Bool → ℕ → ℕ → ℕ → Bytes → Option RetryRule → Turn
  unfolding final_turn
  answered_turn done_at_retry used dial status raw none = final_turn used dial status raw
  answered_turn done_at_retry used dial status raw (some rule) =
      let (used', retry) = try_retry done_at_retry used rule in
      if ltb 0 rule.attempts
      then (if retry
          then Turn.again used'
              (response_row dial used' true rule.delay status (classify_status_for status))
          else final_turn used' dial status raw)
      else final_turn used dial status raw

  unfoldable pub dial_turn : Dial → Outcome → ℕ → ℕ → Turn
  unfolding failed_turn answered_turn
  dial_turn d (Outcome.failed e) used dial =
      failed_turn d.done_at_retry used dial e (classify_net_err_for d.done_at_class e)
  dial_turn d (Outcome.answered status raw) used dial =
      answered_turn d.done_at_retry used dial status raw (retry_rule status)

  unfoldable pub one_dial : Dial → ℕ → ℕ → Turn
  unfolding dial_turn
  one_dial d used dial = dial_turn d d.outcome used dial

  unfoldable pub append_if : Recorder → Option Row → Recorder
  append_if rec none = rec
  append_if rec (some row) = append rec row

  -- how the loop goes on, or ends with its dial n
  abbrev pub settle :
      Recorder
      → ℕ
      → (ℕ → Row → Option (Reply × Recorder × ℕ))
      → Turn
      → Option (Reply × Recorder × ℕ)
  settle rec n next (Turn.again used row) = next used row
  settle rec n next (Turn.stop row reply) = some (reply, append_if rec row, n)

  -- the loop, with the dials made so far; its result has the number of dials
  unfoldable pub dial_loop : ℕ → (ℕ → Dial) → ℕ → ℕ → Recorder → Option (Reply × Recorder × ℕ)
  dial_loop zero net used dial rec = none
  dial_loop (suc fuel) net used dial rec =
      settle rec (dial + 1) (λ used' row. dial_loop fuel net used' (dial + 1) (append rec row))
        (one_dial (net (dial + 1)) used (dial + 1))

  unfoldable pub do_classified : (ℕ → Dial) → Recorder → Option (Reply × Recorder × ℕ)
  do_classified net rec = dial_loop max_dials net 0 0 rec
