-- ===== src/Config/Validate/Sound.antt =====
-- What a document that Validate accepts is known to satisfy.
use ocfp.Prelude.{
  has_control_byte, ℕ, ◌+◌, ◌≡◌, true, false, ◌||◌, ◌⊎◌, List, [], ◌∷◌, Bytes, ◌∙◌, sym, eq→≡,
  eq_iff, arith,
}
use ocfp.Prelude.Int.{pos, ◌≤ℤ◌}
use ocfp.Config.Std.{Std}
use ocfp.Config.Error.{ConfigError, ok, reject, bounded_echo, bind-eq-ok, seq-eq-ok}
use ocfp.Config.File.{File, Egress, Route, strategy_round_robin, strategy_weighted_rr}
use ocfp.Config.Egress.{effective_weight, deref_or}
use ocfp.Config.Validate.{
  is_empty, contains, egress_ids, has_usable_head, check_egress, check_egresses, check_refs,
  check_route, check_routes, check_services, validate,
}
use ocfp.Config.Validate.Sets.{Distinct, All, Fresh, Fresh-Distinct, All_map}

pub record IsValidEgress (e : Egress) : Type 0 where
  pub clean : has_control_byte e.id ≡ false
  pub weight : pos 0 ≤ℤ effective_weight e
  pub concurrency : pos 0 ≤ℤ e.max_concurrency
  pub body : pos 0 ≤ℤ e.max_body_bytes

pub record IsValidRoute (es : List Egress) (r : Route) : Type 0 where
  pub clean : has_control_byte r.id ≡ false
  pub strategy :
      (r.strategy ≡ []) ⊎ (r.strategy ≡ strategy_round_robin) ⊎ (r.strategy ≡ strategy_weighted_rr)
  pub nonempty : is_empty r.egress ≡ false
  pub min_body : pos 0 ≤ℤ r.match.min_body_bytes
  pub max_body : pos 0 ≤ℤ r.match.max_body_bytes
  pub known : All (λ ref. contains (egress_ids es) ref ≡ true) r.egress
  pub distinct : Distinct r.egress
  pub usable : r.strategy ≡ strategy_weighted_rr → has_usable_head es r.egress ≡ true

pub record IsValid (f : File) : Type 0 where
  pub egress : All IsValidEgress f.egress
  pub egress_distinct : Distinct (egress_ids f.egress)
  pub routes : All (IsValidRoute f.egress) f.routes
  pub attempts : pos 0 ≤ℤ f.fallback.max_attempts
  pub threshold : pos 0 ≤ℤ deref_or f.health.failure_threshold (pos 0)
  pub cooldown : pos 0 ≤ℤ deref_or f.health.cooldown (pos 0)
  pub sync_interval : pos 0 ≤ℤ deref_or f.user_agent.sync_interval (pos 0)

module _ (std : Std) where
  egress-IsValid :
      (i : ℕ) (seen : List Bytes) (e : Egress)
      → check_egress std i seen e ≡ ok tt
      → IsValidEgress e × (contains seen e.id ≡ false)
  unfolding check_egress
  egress-IsValid i seen e h = ground arith

  check_egresses-IsValid :
      (i : ℕ) (seen : List Bytes) (es : List Egress) {s : List Bytes}
      → check_egresses std i seen es ≡ ok s
      → All IsValidEgress es × Fresh seen (egress_ids es)
  unfolding check_egresses
  check_egresses-IsValid i seen [] h = (tt, tt)
  check_egresses-IsValid i seen (e ∷ es) {s} h =
      let (now, later) =
        seq-eq-ok (check_egress std i seen e) (check_egresses std (i + 1) (e.id ∷ seen) es) h in
      let (valid, fresh) = egress-IsValid i seen e now in
      let (valids, freshes) = check_egresses-IsValid (i + 1) (e.id ∷ seen) es later in
      ((valid, valids), (fresh, freshes))

  -- the set that the loop returns holds the ids and nothing else
  check_egresses-contains :
      (i : ℕ) (seen : List Bytes) (es : List Egress) {s : List Bytes} (k : Bytes)
      → check_egresses std i seen es ≡ ok s
      → contains s k ≡ (contains seen k || contains (egress_ids es) k)
  unfolding check_egresses contains
  check_egresses-contains i seen [] k h = ground arith
  check_egresses-contains i seen (e ∷ es) k h =
      let (now, later) =
        seq-eq-ok (check_egress std i seen e) (check_egresses std (i + 1) (e.id ∷ seen) es) h in
      ground (arith, check_egresses-contains (i + 1) (e.id ∷ seen) es k later)

  check_refs-known :
      (rid : Bytes) (seen ref_seen refs : List Bytes)
      → check_refs std rid seen ref_seen refs ≡ ok tt
      → All (λ ref. contains seen ref ≡ true) refs × Fresh ref_seen refs
  unfolding check_refs
  check_refs-known rid seen ref_seen [] h = (tt, tt)
  check_refs-known rid seen ref_seen (ref ∷ refs) h =
      ground (arith, check_refs-known rid seen (ref ∷ ref_seen) refs)

  route_usable :
      (es : List Egress) (seen : List Bytes) (i : ℕ) (route_seen : List Bytes) (r : Route)
      → check_route std es seen i route_seen r ≡ ok tt
      → r.strategy ≡ strategy_weighted_rr
      → has_usable_head es r.egress ≡ true
  unfolding check_route
  route_usable es seen i route_seen r h e = ground (arith, eq_iff r.strategy strategy_weighted_rr)

  route_strategy :
      (es : List Egress) (seen : List Bytes) (i : ℕ) (route_seen : List Bytes) (r : Route)
      → check_route std es seen i route_seen r ≡ ok tt
      → (r.strategy ≡ [])
        ⊎ (r.strategy ≡ strategy_round_robin)
        ⊎ (r.strategy ≡ strategy_weighted_rr)
  unfolding check_route
  route_strategy es seen i route_seen r h =
      ground (arith, eq→≡ r.strategy strategy_round_robin, eq→≡ r.strategy strategy_weighted_rr)

  route_refs :
      (es : List Egress) (seen : List Bytes) (i : ℕ) (route_seen : List Bytes) (r : Route)
      → check_route std es seen i route_seen r ≡ ok tt
      → check_refs std (bounded_echo r.id) seen [] r.egress ≡ ok tt
  unfolding check_route
  route_refs es seen i route_seen r h = ground arith

  route-IsValid :
      (es : List Egress) (seen : List Bytes) (i : ℕ) (route_seen : List Bytes) (r : Route)
      → ((k : Bytes) → contains seen k ≡ contains (egress_ids es) k)
      → check_route std es seen i route_seen r ≡ ok tt
      → IsValidRoute es r × (contains route_seen r.id ≡ false)
  unfolding check_route
  route-IsValid es seen i route_seen r same h =
      let (refs, fresh) =
        check_refs-known (bounded_echo r.id) seen [] r.egress
          (route_refs es seen i route_seen r h) in
      (
        record {
          clean = ground arith;
          strategy = route_strategy es seen i route_seen r h;
          nonempty = ground arith;
          min_body = ground arith;
          max_body = ground arith;
          known = All_map _ _ r.egress (λ ref m. sym (same ref) ∙ m) refs;
          distinct = Fresh-Distinct [] r.egress fresh;
          usable = route_usable es seen i route_seen r h;
        },
        ground arith,
      )

  routes-IsValid :
      (es : List Egress) (seen : List Bytes) (i : ℕ) (route_seen : List Bytes) (rs : List Route)
      → ((k : Bytes) → contains seen k ≡ contains (egress_ids es) k)
      → check_routes std es seen i route_seen rs ≡ ok tt
      → All (IsValidRoute es) rs
  unfolding check_routes
  routes-IsValid es seen i route_seen [] same h = tt
  routes-IsValid es seen i route_seen (r ∷ rs) same h =
      let (now, later) =
        seq-eq-ok (check_route std es seen i route_seen r)
          (check_routes std es seen (i + 1) (r.id ∷ route_seen) rs) h in
      (
        (route-IsValid es seen i route_seen r same now).0,
        routes-IsValid es seen (i + 1) (r.id ∷ route_seen) rs same later,
      )

  services_bounds :
      (f : File)
      → check_services std f ≡ ok tt
      → (pos 0 ≤ℤ f.fallback.max_attempts)
        × (pos 0 ≤ℤ deref_or f.health.failure_threshold (pos 0))
        × (pos 0 ≤ℤ deref_or f.health.cooldown (pos 0))
        × (pos 0 ≤ℤ deref_or f.user_agent.sync_interval (pos 0))
  unfolding check_services
  services_bounds f h = (ground arith, ground arith, ground arith, ground arith)

  -- A document that Validate accepts is well formed: egress ids are distinct and hold no control
  -- byte, weights, caps, bounds and the health and sync settings are not negative, and every route
  -- has a known strategy and lists known egresses, at least one and none twice, and under weighted
  -- round robin one with a positive weight.
  pub validate-IsValid : (f : File) → validate std f ≡ ok tt → IsValid f
  unfolding validate
  validate-IsValid f h =
      let (_, h₁) = seq-eq-ok (reject (is_empty f.egress) ConfigError.no_egress) _ h in
      let (_, h₂) = seq-eq-ok (reject (is_empty f.routes) ConfigError.no_routes) _ h₁ in
      let (seen, ids, h₃) = bind-eq-ok (check_egresses std 0 [] f.egress) _ h₂ in
      let (routes, services) = seq-eq-ok (check_routes std f.egress seen 0 [] f.routes) _ h₃ in
      let (valid, fresh) = check_egresses-IsValid 0 [] f.egress ids in
      let (attempts, threshold, cooldown, sync) = services_bounds f services in
      record {
        egress = valid;
        egress_distinct = Fresh-Distinct [] (egress_ids f.egress) fresh;
        routes =
            routes-IsValid f.egress seen 0 [] f.routes
              (λ k. unfold contains in check_egresses-contains 0 [] f.egress k ids) routes;
        attempts = attempts;
        threshold = threshold;
        cooldown = cooldown;
        sync_interval = sync;
      }
