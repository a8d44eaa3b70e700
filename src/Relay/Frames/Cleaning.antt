-- ===== src/Relay/Frames/Cleaning.antt =====
-- What CleanUsagePayload leaves of a body, field by field.
use ocfp.Prelude.{◌≡◌, ◌≢◌, eq→≡, eq_refl, false, Bytes, bytes, ◌==◌, Bool-cases, inl, inr, ap, ◌∙◌}
use ocfp.Jsonx.{Json, Fields}
use ocfp.Relay.Frames.{drop_null_perf, clean_usage_payload}

differs : (k j : Bytes) → k == j ≡ false → k ≢ j
differs k j e same = cc (e, ap (λ (x : Bytes). x == j) same ∙ eq_refl j)

module _ {F : Type 0} where
  -- The second body is the first without its null perf_metrics.
  pub data DropsPerf : Fields F → Fields F → Type 0 where
    end : DropsPerf Fields.end Fields.end
    gone :
        {k : Bytes} {rest rest' : Fields F}
        → k ≡ bytes "perf_metrics"
        → DropsPerf rest rest'
        → DropsPerf (Fields.field k Json.null rest) rest'
    stays :
        {k : Bytes} {v : Json F} {rest rest' : Fields F}
        → (k ≡ bytes "perf_metrics" → v ≢ Json.null)
        → DropsPerf rest rest'
        → DropsPerf (Fields.field k v rest) (Fields.field k v rest')

  -- The second body is the first cleaned: a null usage is gone, a usage object has lost its null perf_metrics,
  -- a response object is cleaned in turn, and every other field is as it was.
  pub data Cleans : Fields F → Fields F → Type 0 where
    end : Cleans Fields.end Fields.end
    no_usage :
        {k : Bytes} {rest rest' : Fields F}
        → k ≡ bytes "usage"
        → Cleans rest rest'
        → Cleans (Fields.field k Json.null rest) rest'
    usage :
        {k : Bytes} {o o' rest rest' : Fields F}
        → k ≡ bytes "usage"
        → DropsPerf o o'
        → Cleans rest rest'
        → Cleans (Fields.field k (Json.object o) rest) (Fields.field k (Json.object o') rest')
    response :
        {k : Bytes} {o o' rest rest' : Fields F}
        → k ≡ bytes "response"
        → Cleans o o'
        → Cleans rest rest'
        → Cleans (Fields.field k (Json.object o) rest) (Fields.field k (Json.object o') rest')
    stays :
        {k : Bytes} {v : Json F} {rest rest' : Fields F}
        → (k ≡ bytes "usage" → (v ≢ Json.null) × ((o : Fields F) → v ≢ Json.object o))
        → (k ≡ bytes "response" → (o : Fields F) → v ≢ Json.object o)
        → Cleans rest rest'
        → Cleans (Fields.field k v rest) (Fields.field k v rest')

  drop_null_perf-DropsPerf : (o : Fields F) → DropsPerf o (drop_null_perf o)
  drop_null_perf-DropsPerf Fields.end = DropsPerf.end
  drop_null_perf-DropsPerf (Fields.field k Json.null rest) =
      elim (Bool-cases (k == bytes "perf_metrics")) [
        | inl e ↦ rw e (DropsPerf.gone (eq→≡ k _ e) (drop_null_perf-DropsPerf rest))
        | inr e ↦
            rw e (DropsPerf.stays (λ s. absurd (differs k _ e s)) (drop_null_perf-DropsPerf rest))
      ]
  drop_null_perf-DropsPerf (Fields.field k v rest) =
      DropsPerf.stays (λ s h. cc) (drop_null_perf-DropsPerf rest)

  pub clean_usage_payload-Cleans : (o : Fields F) → Cleans o (clean_usage_payload o)
  unfolding clean_usage_payload
  clean_usage_payload-Cleans Fields.end = Cleans.end
  clean_usage_payload-Cleans (Fields.field k Json.null rest) =
      elim (Bool-cases (k == bytes "usage")) [
        | inl e ↦ rw e (Cleans.no_usage (eq→≡ k _ e) (clean_usage_payload-Cleans rest))
        | inr e ↦ rw e (
            Cleans.stays (λ s. absurd (differs k _ e s)) (λ s o h. cc)
              (clean_usage_payload-Cleans rest))
      ]
  clean_usage_payload-Cleans (Fields.field k (Json.object o) rest) =
      elim (Bool-cases (k == bytes "usage")) [
        | inl e ↦ rw e (
            Cleans.usage (eq→≡ k _ e) (drop_null_perf-DropsPerf o)
              (clean_usage_payload-Cleans rest))
        | inr e ↦ elim (Bool-cases (k == bytes "response")) [
          | inl f ↦
              rw (e, f)
                (Cleans.response (eq→≡ k _ f) (clean_usage_payload-Cleans o)
                  (clean_usage_payload-Cleans rest))
          | inr f ↦
              rw (e, f)
                (Cleans.stays (λ s. absurd (differs k _ e s)) (λ s. absurd (differs k _ f s))
                  (clean_usage_payload-Cleans rest))
        ]
      ]
  clean_usage_payload-Cleans (Fields.field k v rest) =
      Cleans.stays (λ s. (λ h. cc, λ o h. cc)) (λ s o h. cc) (clean_usage_payload-Cleans rest)
