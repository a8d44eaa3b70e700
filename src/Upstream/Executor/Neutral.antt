-- ===== src/Upstream/Executor/Neutral.antt =====
-- Which walks leave the health registry alone.
use ocfp.Prelude.{
  ℕ, ◌+◌, ◌≡◌, refl, sym, subst, Bool, true, false, not, ◌||◌, Option, none, some, List, [], ◌∷◌,
  Bytes, arith, leb, length, Bool-cases, if◌then◌else◌, inl, inr,
}
use ocfp.Config.File.{Egress}
use ocfp.Health.{Registry}
use ocfp.Health.Streak.{Reading}
use ocfp.Routing.{RoutePlan}
use ocfp.Upstream.Failure.{marks_health, fallback_allowed}
use ocfp.Upstream.Limiter.{acquire}
use ocfp.Upstream.Recorder.{Row, Recorder}
use ocfp.Upstream.ErrorBody.{ErrorBody}
use ocfp.Upstream.Client.{Dial, Reply, do_classified}
use ocfp.Upstream.Client.Retries.{verdict, do_classified-verdict}
use ocfp.Upstream.Executor.{
  is_canceled, AttemptPolicy, World, Walk, Answer, Move, budget, start, skip, after_failure,
  after_reply, finish, entries, cap_of, after_call, attempt, move, after_move, walk, execute,
}

-- A failure whose class does not mark health.
abbrev pub IsNeutral : Reply → Type 0
IsNeutral (Reply.serve status) = ⊥
IsNeutral (Reply.fail error class) = marks_health class ≡ false

module _ (decode : Bytes → Option ErrorBody) (net : ℕ → ℕ → Dial) (clock : ℕ → Reading)
    (has_client : Egress → Bool) (policy : AttemptPolicy) (r : Registry) where
  Keeps : Option Move → Type 0
  Keeps none = Unit
  Keeps (some (Move.carry w)) = w.world.registry ≡ r
  Keeps (some (Move.leave w)) = w.world.registry ≡ r
  Keeps (some (Move.done a)) = a.world.registry ≡ r

  KeepsAnswer : Option Answer → Type 0
  KeepsAnswer none = Unit
  KeepsAnswer (some a) = a.world.registry ≡ r

  either-Keeps :
      (fallback : Bool) (w : Walk)
      → w.world.registry ≡ r
      → Keeps (some (if fallback then Move.carry w else Move.leave w))
  unfolding Keeps
  either-Keeps true w e = e
  either-Keeps false w e = e

  skip-Keeps : (w : Walk) (row : Row) → w.world.registry ≡ r → Keeps (some (skip policy w row))
  unfolding skip
  skip-Keeps w row e = either-Keeps policy.fallback_enabled _ e

  after_reply-Keeps :
      (id : Bytes) (e : Egress) (at : Reading) (start_row : ℕ) (w : Walk) (reply : Reply)
      → IsNeutral reply
      → w.world.registry ≡ r
      → Keeps (some (after_reply policy id e at start_row w reply))
  unfolding after_reply after_failure Keeps is_canceled
  after_reply-Keeps id e at start_row w (Reply.serve status) n same = absurd n
  after_reply-Keeps id e at start_row w (Reply.fail error class) n same =
      elim (Bool-cases (is_canceled class)) [
        | inl c ↦ rw c same
        | inr c ↦
            elim (Bool-cases (not (fallback_allowed class) || leb (budget policy) w.attempts)) [
              | inl f ↦ rw (c, f, n) same
              | inr f ↦ rw (c, f, n) same
            ]
      ]

  after_call-Keeps :
      (id : Bytes) (e : Egress) (start_row : ℕ) (w : Walk) (o : Option (Reply × Recorder × ℕ))
      (reply : Reply) (rec : Recorder) (n : ℕ)
      → o ≡ some (reply, rec, n)
      → IsNeutral reply
      → w.world.registry ≡ r
      → Keeps (after_call decode net clock has_client policy id e start_row w o)
  unfolding after_call Keeps
  after_call-Keeps id e start_row w none reply rec n f v same = tt
  after_call-Keeps id e start_row w (some (reply', rec', n')) reply rec n f v same =
      let replies : reply ≡ reply' = cc in
      after_reply-Keeps id e (clock w.attempts) start_row _ reply' (subst IsNeutral replies v) same

  abbrev pub AllNeutral : Type 0
  AllNeutral = (n d : ℕ) → IsNeutral (verdict decode (net n d) (net n d).outcome)

  attempt-Keeps :
      (id : Bytes) (e : Egress) (w : Walk)
      → AllNeutral
      → w.world.registry ≡ r
      → Keeps (attempt decode net clock has_client policy id e w)
  unfolding attempt
  attempt-Keeps id e w all same =
      let (reply, rec, n, f, lo, hi, v) =
        do_classified-verdict decode (net w.attempts) w.world.recorder in
      after_call-Keeps id e (length w.world.recorder.rows) w
        (do_classified decode (net w.attempts) w.world.recorder) reply rec n f
        (subst IsNeutral (sym v) (all w.attempts n)) same

  guarded-Keeps :
      (skips : Bool) (m : Move) (o : Option Move)
      → Keeps (some m)
      → Keeps o
      → Keeps (if skips then some m else o)
  guarded-Keeps true m o g h = g
  guarded-Keeps false m o g h = h

  move-Keeps :
      (entry : Bytes × Option Egress) (w : Walk)
      → AllNeutral
      → w.world.registry ≡ r
      → Keeps (move decode net clock has_client policy entry w)
  unfolding move
  move-Keeps (id, none) w all same = skip-Keeps w _ same
  move-Keeps (id, some e) w all same =
      let (limiter, granted) = acquire w.world.limiter id (cap_of policy id) in
      let w' = record w {
        attempts = w.attempts + 1;
        last_id = id;
        world = record w.world { limiter = limiter };
      } in
      guarded-Keeps (not (has_client e)) _ _ (skip-Keeps w _ same)
        (guarded-Keeps (not granted) _ _ (skip-Keeps w _ same) (attempt-Keeps id e w' all same))

  finish-Keeps : (w : Walk) → w.world.registry ≡ r → (finish w).world.registry ≡ r
  unfolding finish
  finish-Keeps w same = ground arith

  after_move-Keeps :
      (next : Walk → Option Answer) (o : Option Move)
      → Keeps o
      → ((w : Walk) → w.world.registry ≡ r → KeepsAnswer (next w))
      → KeepsAnswer (after_move decode net clock has_client policy next o)
  unfolding Keeps KeepsAnswer
  after_move-Keeps next none k later = tt
  after_move-Keeps next (some (Move.carry w)) k later = later w k
  after_move-Keeps next (some (Move.leave w)) k later = finish-Keeps w k
  after_move-Keeps next (some (Move.done a)) k later = k

  walk-Keeps :
      (es : List (Bytes × Option Egress)) (w : Walk)
      → AllNeutral
      → w.world.registry ≡ r
      → KeepsAnswer (walk decode net clock has_client policy es w)
  unfolding walk KeepsAnswer
  walk-Keeps [] w all same = finish-Keeps w same
  walk-Keeps (entry ∷ es) w all same =
      after_move-Keeps (λ w'. walk decode net clock has_client policy es w')
        (move decode net clock has_client policy entry w) (move-Keeps entry w all same)
        (λ w' same'. walk-Keeps es w' all same')

  answer-Keeps :
      (o : Option Answer) {a : Answer} → KeepsAnswer o → o ≡ some a → a.world.registry ≡ r
  unfolding KeepsAnswer
  answer-Keeps none k h = cc
  answer-Keeps (some b) k h = cc

-- If every dial that the network would answer fails with a class that does not mark health, such as a
-- rate limit, then the executor, whatever the plan, leaves the health registry as it was.
pub execute_neutral :
    (decode : Bytes → Option ErrorBody) (net : ℕ → ℕ → Dial) (clock : ℕ → Reading)
    (has_client : Egress → Bool) (policy : AttemptPolicy) (plan : RoutePlan) (world : World)
    {a : Answer}
    → ((n d : ℕ) → IsNeutral (verdict decode (net n d) (net n d).outcome))
    → execute decode net clock has_client policy plan world ≡ some a
    → a.world.registry ≡ world.registry
unfolding execute
execute_neutral decode net clock has_client policy plan world all h =
    answer-Keeps decode net clock has_client policy world.registry
      (walk decode net clock has_client policy (entries plan.attempts plan.egresses) (start world))
      (walk-Keeps decode net clock has_client policy world.registry
        (entries plan.attempts plan.egresses) (start world) all refl)
      h
