-- ===== src/Upstream/ErrorBody.antt =====
-- parseUpstreamError of internal/upstream/client.go: the message of an error body. Decoding the body
-- is encoding/json's and a parameter.
use ocfp.Prelude.{ℕ, ◌≡◌, false, Option, none, some, ◌++◌, Bytes, bytes, eqb, if◌then◌else◌, arith}
use ocfp.Prelude.Int.{pos}
use ocfp.Prelude.Decimal.{itoa}
use ocfp.Config.Validate.{is_empty}

-- What is read of a body that is a JSON object: the texts of error.message and of message, empty if
-- missing or no text, and a truthy error as its text or as its JSON.
pub record ErrorBody : Type 0 where
  pub error_message : Bytes
  pub message : Bytes
  pub error : Option Bytes

pub record UpstreamError : Type 0 where
  pub status : ℕ
  pub message : Bytes

-- config.DefaultErrorMessages, and the text for any other status
unfoldable pub default_message : ℕ → Bytes
default_message status =
    if eqb status 400
    then bytes "Bad request"
    else if eqb status 401
    then bytes "Invalid API key provided"
    else if eqb status 402
    then bytes "Payment required"
    else if eqb status 403
    then bytes "You exceeded your current quota"
    else if eqb status 404
    then bytes "Model not found"
    else if eqb status 406
    then bytes "Model not supported"
    else if eqb status 429
    then bytes "Rate limit exceeded"
    else if eqb status 500
    then bytes "Internal server error"
    else if eqb status 502
    then bytes "Bad gateway - upstream provider error"
    else if eqb status 503
    then bytes "Service temporarily unavailable"
    else if eqb status 504
    then bytes "Gateway timeout"
    else bytes "Upstream error: " ++ itoa (pos status)

bare_error : Option Bytes → Bytes → Bytes
bare_error none text = text
bare_error (some m) text = m

body_message : Option ErrorBody → Bytes → Bytes
unfolding bare_error
body_message none text = text
body_message (some b) text =
    if is_empty b.error_message
    then (if is_empty b.message then bare_error b.error text else b.message)
    else b.error_message

unfoldable pub parse_upstream_error : (Bytes → Option ErrorBody) → ℕ → Bytes → UpstreamError
unfolding body_message
parse_upstream_error decode status body =
    let message = body_message (decode body) body in
    record {
      status = status;
      message = if is_empty message then default_message status else message;
    }

default_message_nonempty : (status : ℕ) → is_empty (default_message status) ≡ false
unfolding default_message
default_message_nonempty status = ground arith

-- Whatever the body is, the error keeps the status of the response and its message is not empty.
pub parse_upstream_error_lem :
    (decode : Bytes → Option ErrorBody) (status : ℕ) (body : Bytes)
    → ((parse_upstream_error decode status body).status ≡ status)
      × (is_empty (parse_upstream_error decode status body).message ≡ false)
unfolding parse_upstream_error
parse_upstream_error_lem decode status body = ground (arith, default_message_nonempty status)
