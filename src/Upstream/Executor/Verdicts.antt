-- ===== src/Upstream/Executor/Verdicts.antt =====
-- What ExecuteObserved returns: within the budget, and the last dialed attempt's own verdict.
use ocfp.Prelude.{
  ℕ, ◌+◌, ◌≤◌, ◌<◌, ◌≡◌, ◌⊎◌, inl, inr, refl, subst, Bool, true, false, not, ◌||◌, Option, none,
  some, List, [], ◌∷◌, Bytes, arith, leb, length, Bool-cases, if◌then◌else◌,
}
use ocfp.Config.File.{Egress}
use ocfp.Health.Streak.{Reading}
use ocfp.Routing.{RoutePlan}
use ocfp.Upstream.Failure.{Class, fallback_allowed}
use ocfp.Upstream.Limiter.{acquire}
use ocfp.Upstream.Recorder.{Row, Recorder}
use ocfp.Upstream.ErrorBody.{ErrorBody, UpstreamError}
use ocfp.Upstream.Client.{Dial, Reply, do_classified, max_dials}
use ocfp.Upstream.Client.Retries.{verdict, do_classified-verdict}
use ocfp.Upstream.Executor.{
  is_canceled, AttemptPolicy, World, Walk, Answer, Move, budget, start, skip, after_failure,
  after_reply, finish, exhausted, entries, cap_of, after_call, attempt, move, after_move, walk,
  execute,
}

module _ (decode : Bytes → Option ErrorBody) (net : ℕ → ℕ → Dial) (clock : ℕ → Reading)
    (has_client : Egress → Bool) (policy : AttemptPolicy) where
  -- The reply is the verdict of a dial, one of the first four, of the attempt of that number.
  abbrev pub IsVerdict : ℕ → Reply → Type 0
  IsVerdict n reply =
      (d : ℕ) × (1 ≤ d) × (d ≤ max_dials) × (reply ≡ verdict decode (net n d) (net n d).outcome)

  abbrev pub Returns : Answer → Reply → Type 0
  Returns a (Reply.serve status) =
      (a.served ≡ some status) × (a.error ≡ none) × (a.class ≡ Class.success)
  Returns a (Reply.fail error class) =
      (a.served ≡ none) × (a.error ≡ some error) × (a.class ≡ class)

  -- Nothing was dialed and the answer is the synthetic 502, or it is the last attempt's verdict.
  abbrev pub IsHonest : Answer → Type 0
  IsHonest a =
      (a.attempts ≡ 0)
        × (a.served ≡ none)
        × (a.error ≡ some (record { status = 502; message = exhausted }))
      ⊎ (1 ≤ a.attempts) × (reply : Reply) × IsVerdict a.attempts reply × Returns a reply

  IsOpen : Walk → Type 0
  IsOpen w =
      (w.attempts < budget policy)
      × ((w.attempts ≡ 0) × (w.last_error ≡ none)
          ⊎ (1 ≤ w.attempts)
            × (error : UpstreamError) × (w.last_error ≡ some error)
            × IsVerdict w.attempts (Reply.fail error w.last_class))

  IsBounded : Answer → Type 0
  IsBounded a = (a.attempts ≤ budget policy) × IsHonest a

  Good : Move → Type 0
  Good (Move.carry w) = IsOpen w
  Good (Move.leave w) = IsOpen w
  Good (Move.done a) = IsBounded a

  finish-IsBounded : (w : Walk) → IsOpen w → IsBounded (finish w)
  unfolding IsOpen IsBounded finish
  finish-IsBounded w (below, inl (z, n)) = rw n (omega arith, inl (z, refl, refl))
  finish-IsBounded w (below, inr (some_dial, error, e, v)) =
      rw e (omega arith, inr (some_dial, Reply.fail error w.last_class, v, (refl, refl, refl)))

  either-Good :
      (fallback : Bool) (w : Walk)
      → IsOpen w
      → Good (if fallback then Move.carry w else Move.leave w)
  unfolding Good
  either-Good true w open_walk = open_walk
  either-Good false w open_walk = open_walk

  skip-Good : (w : Walk) (row : Row) → IsOpen w → Good (skip policy w row)
  unfolding skip IsOpen
  skip-Good w row open_walk = either-Good policy.fallback_enabled _ open_walk

  after_reply-Good :
      (id : Bytes) (e : Egress) (at : Reading) (start_row : ℕ) (w : Walk) (reply : Reply)
      → 1 ≤ w.attempts
      → w.attempts ≤ budget policy
      → IsVerdict w.attempts reply
      → Good (after_reply policy id e at start_row w reply)
  unfolding after_reply after_failure Good IsBounded IsOpen is_canceled
  after_reply-Good id e at start_row w (Reply.serve status) some_dial within v =
      (within, inr (some_dial, Reply.serve status, v, (refl, refl, refl)))
  after_reply-Good id e at start_row w (Reply.fail error class) some_dial within v =
      elim (Bool-cases (is_canceled class)) [
        | inl c ↦ rw c (within, inr (some_dial, Reply.fail error class, v, (refl, refl, refl)))
        | inr c ↦
            elim (Bool-cases (not (fallback_allowed class) || leb (budget policy) w.attempts)) [
              | inl f ↦
                  rw (c, f) (within, inr (some_dial, Reply.fail error class, v, (refl, refl, refl)))
              | inr f ↦ rw (c, f) (ground arith, inr (some_dial, error, refl, v))
            ]
      ]

  GoodMove : Option Move → Type 0
  GoodMove none = ⊥
  GoodMove (some m) = Good m

  after_call-GoodMove :
      (id : Bytes) (e : Egress) (start_row : ℕ) (w : Walk) (o : Option (Reply × Recorder × ℕ))
      (reply : Reply) (rec : Recorder) (n : ℕ)
      → o ≡ some (reply, rec, n)
      → 1 ≤ w.attempts
      → w.attempts ≤ budget policy
      → IsVerdict w.attempts reply
      → GoodMove (after_call decode net clock has_client policy id e start_row w o)
  unfolding after_call GoodMove
  after_call-GoodMove id e start_row w none reply rec n f some_dial within v = cc
  after_call-GoodMove id e start_row w (some (reply', rec', n')) reply rec n f some_dial within v =
      let same : reply ≡ reply' = cc in
      after_reply-Good id e (clock w.attempts) start_row _ reply' some_dial within
        (subst (IsVerdict w.attempts) same v)

  attempt-GoodMove :
      (id : Bytes) (e : Egress) (w : Walk)
      → 1 ≤ w.attempts
      → w.attempts ≤ budget policy
      → GoodMove (attempt decode net clock has_client policy id e w)
  unfolding attempt
  attempt-GoodMove id e w some_dial within =
      let (reply, rec, n, f, lo, hi, v) =
        do_classified-verdict decode (net w.attempts) w.world.recorder in
      after_call-GoodMove id e (length w.world.recorder.rows) w
        (do_classified decode (net w.attempts) w.world.recorder) reply rec n f some_dial within
        (n, lo, hi, v)

  guarded :
      (skips : Bool) (m : Move) (o : Option Move)
      → GoodMove (some m)
      → GoodMove o
      → GoodMove (if skips then some m else o)
  guarded true m o g h = g
  guarded false m o g h = h

  move-GoodMove :
      (entry : Bytes × Option Egress) (w : Walk)
      → IsOpen w
      → GoodMove (move decode net clock has_client policy entry w)
  unfolding move GoodMove IsOpen
  move-GoodMove (id, none) w open_walk = skip-Good w _ open_walk
  move-GoodMove (id, some e) w open_walk =
      let (limiter, granted) = acquire w.world.limiter id (cap_of policy id) in
      let w' = record w {
        attempts = w.attempts + 1;
        last_id = id;
        world = record w.world { limiter = limiter };
      } in
      guarded (not (has_client e)) _ _ (skip-Good w _ open_walk) (
        guarded (not granted) _ _ (skip-Good w _ open_walk)
          (attempt-GoodMove id e w' (omega arith) (omega (arith, open_walk.0))))

  -- The walk answers, and its answer is bounded and honest.
  Answers : Option Answer → Type 0
  Answers o = (a : Answer) × (o ≡ some a) × IsBounded a

  after_move-Answers :
      (next : Walk → Option Answer) (o : Option Move)
      → GoodMove o
      → ((w : Walk) → IsOpen w → Answers (next w))
      → Answers (after_move decode net clock has_client policy next o)
  unfolding GoodMove Good Answers
  after_move-Answers next none g later = absurd g
  after_move-Answers next (some (Move.carry w)) g later = later w g
  after_move-Answers next (some (Move.leave w)) g later = (finish w, refl, finish-IsBounded w g)
  after_move-Answers next (some (Move.done a)) g later = (a, refl, g)

  walk-Answers :
      (es : List (Bytes × Option Egress)) (w : Walk)
      → IsOpen w
      → Answers (walk decode net clock has_client policy es w)
  unfolding walk Answers
  walk-Answers [] w open_walk = (finish w, refl, finish-IsBounded w open_walk)
  walk-Answers (entry ∷ es) w open_walk =
      after_move-Answers (λ w'. walk decode net clock has_client policy es w')
        (move decode net clock has_client policy entry w) (move-GoodMove entry w open_walk)
        (λ w' o. walk-Answers es w' o)

  budget_positive : 1 ≤ budget policy
  unfolding budget
  budget_positive = ground arith

  start-IsOpen : (world : World) → IsOpen (start world)
  unfolding IsOpen
  start-IsOpen world = (omega (arith, budget_positive), inl (refl, refl))

  -- For any plan and whatever the network answers the executor returns, its attempts are at most the
  -- budget, and its answer is honest: the response or the error, with its class, of the last attempt
  -- that was dialed, and the synthetic 502 only if none was.
  pub execute-IsHonest :
      (plan : RoutePlan) (world : World)
      → (a : Answer) × (execute decode net clock has_client policy plan world ≡ some a)
        × (a.attempts ≤ budget policy)
        × IsHonest a
  unfolding execute Answers IsBounded
  execute-IsHonest plan world =
      let (a, f, bounded) =
        walk-Answers (entries plan.attempts plan.egresses) (start world) (start-IsOpen world) in
      (a, f, bounded.0, bounded.1)
