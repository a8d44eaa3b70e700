-- ===== src/Config/Validate.antt =====
-- File.Validate and validateProxy of internal/config/file.go: the checks in the source's order, the
-- first that fails naming the error.
pub mod Sets
pub mod Sound
use ocfp.Prelude.{
  has_control_byte, ℕ, ◌+◌, Bool, true, false, not, ◌&&◌, ◌||◌, Option, none, some, List, [], ◌∷◌,
  Bytes, bytes, ◌==◌, if◌then◌else◌,
}
use ocfp.Prelude.Int.{ℤ, pos, ltb_ℤ}
use ocfp.Config.Std.{Std, Url}
use ocfp.Config.Error
use ocfp.Config.Error.{ConfigError, ProxyError, Result, ok, err, ◌>>=◌, ◌>>◌, reject, bounded_echo}
use ocfp.Config.File.{
  File, Egress, Proxy, Route, Match, proxy_http, proxy_https, proxy_socks5, strategy_round_robin,
  strategy_weighted_rr,
}
use ocfp.Config.Egress.{effective_weight, deref_or}

-- A set of texts that a loop has seen (map[string]bool).
unfoldable pub contains : List Bytes → Bytes → Bool
contains [] k = false
contains (j ∷ s) k = j == k || contains s k

abbrev pub is_empty {ℓ} : {A : Type ℓ} → List A → Bool
is_empty [] = true
is_empty (_ ∷ _) = false

abbrev pub is_negative : ℤ → Bool
is_negative n = ltb_ℤ n (pos 0)

-- w != nil && *w < 0
abbrev pub is_set_negative : Option ℤ → Bool
is_set_negative w = is_negative (deref_or w (pos 0))

abbrev pub egress_ids : List Egress → List Bytes
egress_ids [] = []
egress_ids (e ∷ es) = e.id ∷ egress_ids es

-- &f.Egress[indexByID(f.Egress, ref)]; the source calls it on references that it has found.
unfoldable pub find_egress : List Egress → Bytes → Option Egress
find_egress [] k = none
find_egress (e ∷ es) k = if e.id == k then some e else find_egress es k

is_positive_weight : Option Egress → Bool
is_positive_weight none = false
is_positive_weight (some e) = ltb_ℤ (pos 0) (effective_weight e)

-- some member's weight is above 0
unfoldable pub has_usable_head : List Egress → List Bytes → Bool
unfolding is_positive_weight
has_usable_head es [] = false
has_usable_head es (ref ∷ refs) = is_positive_weight (find_egress es ref) || has_usable_head es refs

module _ (std : Std) where
  check_patterns : (Bytes → ConfigError) → List Bytes → Result (Unit {0})
  check_patterns bad [] = ok tt
  check_patterns bad (pat ∷ pats) =
      let rest = check_patterns bad pats in
      elim (std.path_match pat []) [ none ↦ err (bad (bounded_echo pat)) | some _ ↦ rest ]

  is_proxy_type : Bytes → Bool
  is_proxy_type t = t == proxy_http || t == proxy_https || t == proxy_socks5

  unfoldable pub check_proxy_url : Bytes → Option Url → Option ProxyError
  check_proxy_url t none = some ProxyError.malformed_url
  check_proxy_url t (some u) =
      if u.scheme == t || t == proxy_socks5 && u.scheme == bytes "socks5h"
      then (if is_empty u.host then some ProxyError.missing_host else none)
      else some ProxyError.scheme_mismatch

  unfoldable pub validate_proxy : Proxy → Option ProxyError
  unfolding is_proxy_type check_proxy_url
  validate_proxy p =
      if is_proxy_type p.type
      then (if is_empty p.url
          then some ProxyError.missing_url
          else check_proxy_url p.type (std.url_parse p.url))
      else if p.type == bytes "socks5h"
      then some ProxyError.socks5h_type
      else some ProxyError.unknown_type

  check_proxy : Bytes → Option Proxy → Result (Unit {0})
  check_proxy eid none = ok tt
  check_proxy eid (some p) = elim (validate_proxy p) [
    | none ↦ ok tt
    | some e ↦ err (Error.ConfigError.egress_proxy eid e)
  ]

  -- the body of the loop over f.Egress
  unfoldable pub check_egress : ℕ → List Bytes → Egress → Result (Unit {0})
  unfolding check_patterns check_proxy
  check_egress i seen e = do
    reject (is_empty (std.trim_space e.id)) (ConfigError.egress_id_required i)
    reject (has_control_byte e.id) (ConfigError.egress_id_control i)
    let eid = bounded_echo e.id
    reject (contains seen e.id) (ConfigError.egress_duplicate eid)
    reject (is_set_negative e.weight) (ConfigError.egress_weight eid)
    reject (is_negative e.max_concurrency) (ConfigError.egress_concurrency eid)
    reject (is_negative e.max_body_bytes) (ConfigError.egress_body_bytes eid)
    check_patterns (ConfigError.egress_pattern eid) e.models
    check_proxy eid e.proxy

  -- returns the set `seen`
  unfoldable pub check_egresses : ℕ → List Bytes → List Egress → Result (List Bytes)
  unfolding check_egress
  check_egresses i seen [] = ok seen
  check_egresses i seen (e ∷ es) =
      let rest = check_egresses (i + 1) (e.id ∷ seen) es in do check_egress i seen e; rest

  is_strategy : Bytes → Bool
  is_strategy s = is_empty s || s == strategy_round_robin || s == strategy_weighted_rr

  -- every reference is configured, and none is listed twice
  unfoldable pub check_refs : Bytes → List Bytes → List Bytes → List Bytes → Result (Unit {0})
  check_refs rid seen ref_seen [] = ok tt
  check_refs rid seen ref_seen (ref ∷ refs) =
      let rest = check_refs rid seen (ref ∷ ref_seen) refs in
      do
        reject (not (contains seen ref)) (ConfigError.route_unknown_egress rid (bounded_echo ref))
        reject (contains ref_seen ref) (ConfigError.route_repeated_egress rid (bounded_echo ref))
        rest

  unfoldable pub check_match : Bytes → Match → Result (Unit {0})
  unfolding check_patterns
  check_match rid m = do
    reject (is_negative m.min_body_bytes) (ConfigError.route_min_body rid)
    reject (is_negative m.max_body_bytes) (ConfigError.route_max_body rid)
    reject
        (ltb_ℤ (pos 0) m.min_body_bytes
          && ltb_ℤ (pos 0) m.max_body_bytes
          && ltb_ℤ m.max_body_bytes m.min_body_bytes)
        (ConfigError.route_body_range rid m.min_body_bytes m.max_body_bytes)
    check_patterns (ConfigError.route_pattern rid) m.models

  -- the body of the loop over f.Routes
  unfoldable pub check_route : List Egress → List Bytes → ℕ → List Bytes → Route → Result (Unit {0})
  unfolding is_strategy check_match check_refs
  check_route egress seen i route_seen r = do
    reject (is_empty (std.trim_space r.id)) (ConfigError.route_id_required i)
    reject (has_control_byte r.id) (ConfigError.route_id_control i)
    let rid = bounded_echo r.id
    reject (contains route_seen r.id) (ConfigError.route_duplicate rid)
    reject (not (is_strategy r.strategy)) (ConfigError.route_strategy rid (bounded_echo r.strategy))
    reject (is_empty r.egress) (ConfigError.route_no_egress rid)
    check_match rid r.match
    check_refs rid seen [] r.egress
    reject (r.strategy == strategy_weighted_rr && not (has_usable_head egress r.egress))
        (ConfigError.route_unusable rid)

  unfoldable pub check_routes :
      List Egress → List Bytes → ℕ → List Bytes → List Route → Result (Unit {0})
  unfolding check_route
  check_routes egress seen i route_seen [] = ok tt
  check_routes egress seen i route_seen (r ∷ rs) =
      let rest = check_routes egress seen (i + 1) (r.id ∷ route_seen) rs in
      do check_route egress seen i route_seen r; rest

  check_base_url : Option Url → Result (Unit {0})
  check_base_url none = err ConfigError.upstream_malformed
  check_base_url (some u) = do
    reject (not (u.scheme == bytes "http" || u.scheme == bytes "https"))
        (ConfigError.upstream_scheme (bounded_echo u.scheme))
    reject (is_empty u.host) ConfigError.upstream_host
    reject u.has_user ConfigError.upstream_userinfo
    reject (not (is_empty u.raw_query) || not (is_empty u.fragment)) ConfigError.upstream_query

  unfoldable pub check_base : Bytes → Result (Unit {0})
  unfolding check_base_url
  check_base base = if is_empty base then ok tt else check_base_url (std.url_parse base)

  is_log_level : Bytes → Bool
  is_log_level l =
      is_empty l
      || l == bytes "debug"
      || l == bytes "info"
      || l == bytes "warn"
      || l == bytes "error"

  -- the checks behind the two loops
  unfoldable pub check_services : File → Result (Unit {0})
  unfolding check_base is_log_level
  check_services f = do
    reject (is_negative f.fallback.max_attempts) ConfigError.fallback_attempts
    reject (is_set_negative f.health.failure_threshold) ConfigError.health_threshold
    reject (is_set_negative f.health.cooldown) ConfigError.health_cooldown
    check_base f.upstream.base
    reject (not (is_log_level f.log_level)) (ConfigError.log_level f.log_level)
    reject (is_set_negative f.user_agent.sync_interval) ConfigError.sync_interval

  unfoldable pub validate : File → Result (Unit {0})
  unfolding check_egresses check_routes check_services
  validate f = do
    reject (is_empty f.egress) ConfigError.no_egress
    reject (is_empty f.routes) ConfigError.no_routes
    seen ← check_egresses 0 [] f.egress
    check_routes f.egress seen 0 [] f.routes
    check_services f
