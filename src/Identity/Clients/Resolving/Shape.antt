-- ===== src/Identity/Clients/Resolving/Shape.antt =====
-- Whatever a client sends, the session that goes upstream has the upstream's shape.
use ocfp.Prelude.{
  ◌≡◌, subst, true, false, not, ◌&&◌, [], ◌∷◌, Bytes, if◌then◌else◌, Bool-cases, inl, inr, and_true,
}
use ocfp.Prelude.GoMap.{Map}
use ocfp.Config.Validate.{is_empty}
use ocfp.Jsonx.{Json, Floats}
use ocfp.Identity.Session.{ses, matches_id, Clock, generate_session_id}
use ocfp.Identity.Session.Shape.{
  IsRandom, IsSum, generate_session_id-matches_id, translate_session_id-matches_id,
}
use ocfp.Identity.Clients.{Texts}
use ocfp.Identity.Clients.Resolving.{
  Stores, Draw, detect_client_tool, native_session, sent_session, incoming, known_session,
  resolve_session,
}

module _ {F : Type 0} (texts : Texts F) (floats : Floats F)
    (sums : (s : Bytes) → IsSum (texts.sha256 s)) where
  sent-matches_id :
      (clock : Clock) (draw : Draw) (headers : Map Bytes) (body : Map (Json F)) (resolved : Bytes)
      → IsRandom draw.random
      → matches_id ses (sent_session texts floats clock draw headers body resolved).1 ≡ true
  unfolding sent_session generate_session_id
  sent-matches_id clock draw headers body [] random =
      generate_session_id-matches_id clock draw.millis draw.random random
  sent-matches_id clock draw headers body (c ∷ resolved) random =
      translate_session_id-matches_id texts.trim_space texts.sha256 (c ∷ resolved)
        (detect_client_tool texts floats headers body) sums

  native-matches_id :
      (headers : Map Bytes)
      → is_empty (native_session texts floats headers) ≡ false
      → matches_id ses (native_session texts floats headers) ≡ true
  unfolding native_session
  native-matches_id headers h =
      elim (Bool-cases (
        not (is_empty (incoming texts floats headers))
        && matches_id ses (incoming texts floats headers))) [
          | inl e ↦ rw e (and_true _ _ e).1
          | inr e ↦
              let shut : true ≡ false =
                subst (λ b. is_empty (if b then incoming texts floats headers else []) ≡ false) e
                  h in
              absurd (cc)
        ]

  -- The session that resolve_session answers is ses_, twelve lower-case hex digits and fourteen letters or
  -- digits, for any headers, body, stores and clock, when a SHA-256 sum is 32 bytes and rand.Read, unless it
  -- fails, fills its 14 bytes.
  pub resolve_session-matches_id :
      (stores : Stores) (clock : Clock) (draw : Draw) (body : Map (Json F)) (headers : Map Bytes)
      → IsRandom draw.random
      → matches_id ses (resolve_session texts floats stores clock draw body headers).2 ≡ true
  unfolding resolve_session
  resolve_session-matches_id stores clock draw body headers random =
      let known =
        known_session texts floats stores draw body headers (incoming texts floats headers) in
      elim (Bool-cases (is_empty (native_session texts floats headers))) [
        | inl e ↦ rw e (sent-matches_id clock draw headers body known.1 random)
        | inr e ↦ rw e (native-matches_id headers e)
      ]
