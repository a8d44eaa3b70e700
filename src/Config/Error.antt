-- ===== src/Config/Error.antt =====
-- The load errors of internal/config/file.go: a constructor for each error text of Validate and
-- validateProxy, with the values that the text echoes, but for the list of configured ids and for
-- the reason that net/url gives.
use ocfp.Prelude.{◌≡◌, refl, ℕ, Bool, ◌++◌, Bytes, bytes, if◌then◌else◌, leb, length, take}
use ocfp.Prelude.Int.{ℤ}

-- boundedEcho: a text over 10 bytes is cut to its first 7
unfoldable pub bounded_echo : Bytes → Bytes
bounded_echo s = if leb (length s) 10 then s else take 7 s ++ bytes "..."

pub data ProxyError : Type 0 where
  socks5h_type unknown_type missing_url malformed_url scheme_mismatch missing_host : ProxyError

pub data ConfigError : Type 0 where
  no_egress no_routes : ConfigError
  egress_id_required egress_id_control : ℕ → ConfigError
  egress_duplicate egress_weight egress_concurrency egress_body_bytes : Bytes → ConfigError
  egress_pattern : Bytes → Bytes → ConfigError
  egress_proxy : Bytes → ProxyError → ConfigError
  route_id_required route_id_control : ℕ → ConfigError
  route_duplicate route_no_egress route_min_body route_max_body route_unusable : Bytes → ConfigError
  route_strategy route_pattern route_unknown_egress route_repeated_egress :
      Bytes → Bytes → ConfigError
  route_body_range : Bytes → ℤ → ℤ → ConfigError
  fallback_attempts health_threshold health_cooldown : ConfigError
  upstream_malformed upstream_host upstream_userinfo upstream_query : ConfigError
  upstream_scheme log_level : Bytes → ConfigError
  sync_interval : ConfigError

-- what a load returns: the value, or the first error that it met
pub data Result {ℓ} (A : Type ℓ) : Type ℓ where
  err : ConfigError → Result A
  ok : A → Result A

-- if bad { return e }
abbrev pub reject : Bool → ConfigError → Result (Unit {0})
reject bad e = if bad then err e else ok tt

infixl 5 ◌>>◌ ◌>>=◌
abbrev pub ◌>>=◌ {ℓ κ} : {X : Type ℓ} {Y : Type κ} → Result X → (X → Result Y) → Result Y
err failure >>= next = err failure
ok x >>= next = next x

-- a check, then the rest of the load
abbrev pub ◌>>◌ {ℓ} : {Y : Type ℓ} → Result (Unit {0}) → Result Y → Result Y
check >> rest = check >>= (λ done. rest)

-- A load that succeeds went through its first part.
pub bind-eq-ok {ℓ κ} :
    {X : Type ℓ} {Y : Type κ} (part : Result X) (next : X → Result Y) {y : Y}
    → part >>= next ≡ ok y
    → (x : X) × (part ≡ ok x) × (next x ≡ ok y)
bind-eq-ok (err failure) next e = cc
bind-eq-ok (ok x) next e = (x, refl, e)

pub seq-eq-ok {ℓ} :
    {A : Type ℓ} (m : Result (Unit {0})) (k : Result A) {a : A}
    → (m >> k) ≡ ok a
    → (m ≡ ok tt) × (k ≡ ok a)
seq-eq-ok (ok tt) k h = (refl, h)
seq-eq-ok (err e) k h = cc
