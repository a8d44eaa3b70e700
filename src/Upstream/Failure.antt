-- ===== src/Upstream/Failure.antt =====
-- internal/upstream/failure.go: the failure taxonomy.
use ocfp.Prelude.{ℕ, ◌≤◌, ◌≡◌, ◌⊎◌, Bool, true, false, Bytes, bytes, arith, leb, eqb, if◌then◌else◌}

pub data Class : Type 0 where
  success connection_error proxy_auth_error timeout upstream_429 upstream_5xx : Class
  client_error response_started context_canceled : Class

-- Class.String; every Class of the type is named, so there is no default case
unfoldable pub class_name : Class → Bytes
class_name success = bytes "success"
class_name connection_error = bytes "connection_error"
class_name proxy_auth_error = bytes "proxy_auth_error"
class_name timeout = bytes "timeout"
class_name upstream_429 = bytes "upstream_429"
class_name upstream_5xx = bytes "upstream_5xx"
class_name client_error = bytes "client_error"
class_name response_started = bytes "response_started"
class_name context_canceled = bytes "context_canceled"

unfoldable pub marks_health : Class → Bool
marks_health connection_error = true
marks_health proxy_auth_error = true
marks_health timeout = true
marks_health upstream_5xx = true
marks_health _ = false

unfoldable pub fallback_allowed : Class → Bool
fallback_allowed connection_error = true
fallback_allowed proxy_auth_error = true
fallback_allowed timeout = true
fallback_allowed upstream_429 = true
fallback_allowed upstream_5xx = true
fallback_allowed _ = false

-- What errors.As finds in a transport error: the marker of a proxy that refused credentials, and a
-- net.Error that reports a timeout.
pub record NetError : Type 0 where
  pub proxy_auth : Bool
  pub timed_out : Bool
  pub message : Bytes

unfoldable pub classify_net_err_for : Bool → NetError → Class
classify_net_err_for ctx_done e =
    if ctx_done
    then context_canceled
    else if e.proxy_auth
    then proxy_auth_error
    else if e.timed_out
    then timeout
    else connection_error

unfoldable pub classify_status_for : ℕ → Class
classify_status_for status =
    if eqb status 429 then upstream_429 else if leb 500 status then upstream_5xx else client_error

-- A class that marks an egress's health is one that may fall back, and a class that may fall back
-- without marking health is the rate limit alone.
pub marks_health-fallback_allowed :
    (c : Class)
    → (marks_health c ≡ true → fallback_allowed c ≡ true)
      × (fallback_allowed c ≡ true → (marks_health c ≡ true) ⊎ (c ≡ upstream_429))
unfolding marks_health fallback_allowed
marks_health-fallback_allowed success = ground arith
marks_health-fallback_allowed _ = ground arith

-- No status is a success, a cancellation or a proxy's refusal, and a response falls back exactly
-- when its status is 429 or at least 500.
pub classify_status_for_fallback :
    (status : ℕ)
    → (fallback_allowed (classify_status_for status) ≡ true → (status ≡ 429) ⊎ (500 ≤ status))
      × ((status ≡ 429) ⊎ (500 ≤ status) → fallback_allowed (classify_status_for status) ≡ true)
      × (marks_health (classify_status_for status) ≡ true → 500 ≤ status)
unfolding fallback_allowed marks_health classify_status_for
classify_status_for_fallback status = ground arith
