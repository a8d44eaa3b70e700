-- ===== src/Config/File.antt =====
-- internal/config/file.go: the OCFP_CONFIG document as decoded from YAML, before any check. A pointer
-- field is an `Option` (nil is `none`), `int` and `int64` are ℤ, and a Go string is its bytes.
use ocfp.Prelude.{ℕ, Bool, Option, List, Bytes, bytes}
use ocfp.Prelude.Int.{ℤ, pos}

-- ProxyType and Strategy are string types: any text can stand there until Validate has run.
abbrev pub proxy_http : Bytes
proxy_http = bytes "http"

abbrev pub proxy_https : Bytes
proxy_https = bytes "https"

abbrev pub proxy_socks5 : Bytes
proxy_socks5 = bytes "socks5"

abbrev pub strategy_round_robin : Bytes
strategy_round_robin = bytes "round_robin"

abbrev pub strategy_weighted_rr : Bytes
strategy_weighted_rr = bytes "weighted_round_robin"

abbrev pub default_weight : ℤ
default_weight = pos 1

abbrev pub default_max_attempts : ℤ
default_max_attempts = pos 3

abbrev pub default_health_threshold : ℤ
default_health_threshold = pos 3

-- A time.Duration is a count of nanoseconds.
abbrev pub second : ℕ
second = 1_000_000_000

abbrev pub default_health_cooldown : ℤ
default_health_cooldown = pos 30_000_000_000

pub record Proxy : Type 0 where
  pub type : Bytes
  pub url : Bytes

pub record Egress : Type 0 where
  pub id : Bytes
  pub proxy : Option Proxy
  pub enabled : Option Bool
  pub weight : Option ℤ
  pub max_concurrency : ℤ
  pub models : List Bytes
  pub streaming : Option Bool
  pub max_body_bytes : ℤ

pub record Match : Type 0 where
  pub streaming : Option Bool
  pub min_body_bytes : ℤ
  pub max_body_bytes : ℤ
  pub models : List Bytes

pub record Route : Type 0 where
  pub id : Bytes
  pub priority : ℤ
  pub match : Match
  pub egress : List Bytes
  pub strategy : Bytes

pub record FallbackPolicy : Type 0 where
  pub enabled : Option Bool
  pub max_attempts : ℤ

pub record HealthPolicy : Type 0 where
  pub enabled : Option Bool
  pub failure_threshold : Option ℤ
  pub cooldown : Option ℤ

pub record UpstreamConfig : Type 0 where
  pub base : Bytes

pub record UserAgentConfig : Type 0 where
  pub sync_interval : Option ℤ

pub record File : Type 0 where
  pub log_level : Bytes
  pub egress : List Egress
  pub routes : List Route
  pub fallback : FallbackPolicy
  pub health : HealthPolicy
  pub upstream : UpstreamConfig
  pub user_agent : UserAgentConfig
