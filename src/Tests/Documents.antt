-- ===== src/Tests/Documents.antt =====
-- The document theorems at the sample document.
use ocfp.Prelude.{◌≡◌, refl, true, false, ◌&&◌, some, has_control_byte, arith}
use ocfp.Prelude.Int.{pos, ltb_ℤ, ◌≤ℤ◌}
use ocfp.Config.File.{Route}
use ocfp.Config.Egress.{health_key_injective, transport_signature}
use ocfp.Config.Error.{ok}
use ocfp.Config.Validate.{is_empty}
use ocfp.Config.Validate.Sets.{All, Distinct}
use ocfp.Config.Validate.Sound.{IsValid, validate-IsValid}
use ocfp.Config.Runtime.{match_route, match_holds, first_match, all_match}
use ocfp.Config.Resolve.{snapshot, resolve, sort_routes, seconds}
use ocfp.Config.Resolve.Sorting.{find}
use ocfp.Config.Resolve.Matching.{holds, same_priority, match_route_best}
use ocfp.Config.Resolve.Index.{Resolves, resolve-Resolves}
use ocfp.Config.Resolve.Services.{seconds_wraps}
use ocfp.Tests.Samples.{std, doc, rt, home, shares, home_egress, doc_accepted}

validate-IsValid_example : IsValid doc
validate-IsValid_example = validate-IsValid std doc doc_accepted

doc_resolves : resolve std doc ≡ ok rt
unfolding resolve
doc_resolves = rw doc_accepted refl

resolve-Resolves_example :
    All
      (λ (r : Route). (is_empty r.egress ≡ false) × Distinct r.egress × All (Resolves rt) r.egress)
      rt.routes
resolve-Resolves_example = resolve-Resolves std doc doc_resolves

doc_match : match_route std rt true (pos 10) home ≡ some shares
unfolding match_route match_holds snapshot sort_routes first_match all_match
doc_match = refl

match_route_best_example :
    All (λ q. holds std true (pos 10) home q ≡ true → q.priority ≤ℤ shares.priority) doc.routes
    × (find (λ q. holds std true (pos 10) home q && same_priority shares q) doc.routes
        ≡ some shares)
match_route_best_example = match_route_best std true (pos 10) home doc doc_match

home_clean : has_control_byte home ≡ false
unfolding has_control_byte
home_clean = refl

health_key_injective_example :
    (home_egress.id ≡ home_egress.id)
    × (transport_signature home_egress ≡ transport_signature home_egress)
health_key_injective_example =
    health_key_injective home_egress home_egress home_clean home_clean refl

seconds_wraps_example : ltb_ℤ (seconds (pos 10_000_000_000)) (pos 0) ≡ true
seconds_wraps_example = seconds_wraps 10_000_000_000 (omega arith) (omega arith)
