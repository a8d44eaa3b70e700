-- ===== src/Upstream/Executor.antt =====
-- ExecuteObserved of internal/upstream/fallback.go: one request's walk over its plan. The health
-- registry, the limiter and the recorder are one World, which other requests do not touch meanwhile.
-- Which egress has a client, what the network answers at each attempt and dial, and the clock are
-- parameters; health and slots are always wired, as NewServer does it.
pub mod Verdicts
pub mod Neutral
use ocfp.Prelude.{
  ℕ, zero, suc, ◌+◌, ◌-◌, Bool, true, false, not, ◌||◌, Option, none, some, List, [], ◌∷◌, Bytes,
  bytes, leb, length, if◌then◌else◌,
}
use ocfp.Prelude.Int.{ℤ, pos, pos_part, ltb_ℤ}
use ocfp.Prelude.GoMap
use ocfp.Prelude.GoMap.{Map}
use ocfp.Config.File.{Egress, Proxy}
use ocfp.Config.Egress.{health_key}
use ocfp.Health.{Policy, Registry, observe}
use ocfp.Health.Streak.{Reading}
use ocfp.Routing.{RoutePlan}
use ocfp.Upstream.Failure.{Class, marks_health, fallback_allowed}
use ocfp.Upstream.Limiter.{Limiter, acquire, release, in_flight}
use ocfp.Upstream.Recorder.{Row, Recorder, append, annotate, annotate_at}
use ocfp.Upstream.ErrorBody.{ErrorBody, UpstreamError}
use ocfp.Upstream.Client.{Dial, Reply, blank_row, do_classified}

pub record AttemptPolicy : Type 0 where
  pub fallback_enabled : Bool
  pub max_attempts : ℤ
  pub max_concurrency : Map ℤ
  pub health_policy : Policy

unfoldable pub budget : AttemptPolicy → ℕ
budget p =
    if not p.fallback_enabled || ltb_ℤ p.max_attempts (pos 1) then 1 else pos_part p.max_attempts

cap_or_zero : Option ℤ → ℤ
cap_or_zero none = pos 0
cap_or_zero (some n) = n

-- policy.MaxConcurrency[id]
unfoldable pub cap_of : AttemptPolicy → Bytes → ℤ
unfolding cap_or_zero
cap_of p id = cap_or_zero (GoMap.get id p.max_concurrency)

proxy_kind : Option Proxy → Bytes
proxy_kind none = bytes "direct"
proxy_kind (some p) = p.type

unfoldable pub proxy_type_name : Egress → Bytes
unfolding proxy_kind
proxy_type_name e = proxy_kind e.proxy

pub record World : Type 0 where
  pub registry : Registry
  pub limiter : Limiter
  pub recorder : Recorder

-- the variables of the loop
pub record Walk : Type 0 where
  pub attempts : ℕ
  pub last_id : Bytes
  pub last_class : Class
  pub last_error : Option UpstreamError
  pub terminal_row : Option ℕ
  pub world : World

-- the five results, with the status of a response that is served
pub record Answer : Type 0 where
  pub served : Option ℕ
  pub egress : Bytes
  pub attempts : ℕ
  pub class : Class
  pub error : Option UpstreamError
  pub world : World

-- how one entry of the plan ends: continue, break or return
pub data Move : Type 0 where
  carry : Walk → Move
  leave : Walk → Move
  done : Answer → Move

abbrev pub start : World → Walk
start world = record {
  attempts = 0;
  last_id = [];
  last_class = Class.connection_error;
  last_error = none;
  terminal_row = none;
  world = world;
}

abbrev pub skip_row : Bytes → Bytes → Bytes → Row
skip_row id kind reason = record blank_row {
  phase = bytes "skip";
  egress = id;
  egress_type = kind;
  reason = reason;
}

unfoldable pub skip : AttemptPolicy → Walk → Row → Move
skip policy w row =
    let w' = record w { world = record w.world { recorder = append w.world.recorder row } } in
    if policy.fallback_enabled then Move.carry w' else Move.leave w'

-- the recorder, and the row that was stamped
unfoldable pub annotate_decision : Recorder → ℕ → Bytes → Bytes → Recorder × Option ℕ
annotate_decision rec start_row health retry =
    let n = length rec.rows in
    if leb n start_row then (rec, none) else (
      annotate rec (n - 1) (λ row. record row { health_decision = health; retry_decision = retry }),
      some (n - 1),
    )

unfoldable pub is_canceled : Class → Bool
is_canceled Class.context_canceled = true
is_canceled _ = false

-- a failed attempt whose slot is free again: `w` counts it, and holds its error and its class
unfoldable pub after_failure :
    AttemptPolicy → Bytes → Egress → Reading → ℕ → UpstreamError → Class → Walk → Move
unfolding is_canceled
after_failure policy id e at start_row error class w =
    let stopped = λ (registry : Registry) (health : Bytes). Move.done record {
      served = none;
      egress = id;
      attempts = w.attempts;
      class = class;
      error = some error;
      world = record w.world {
        registry = registry;
        recorder = (annotate_decision w.world.recorder start_row health (bytes "stop")).0;
      };
    } in
    let marked = marks_health class in
    let health = if marked then bytes "marked" else bytes "neutral" in
    let registry =
      if marked
      then observe w.world.registry at.now at.armed_at (health_key e) false policy.health_policy
      else w.world.registry in
    let (rec, row) = annotate_decision w.world.recorder start_row health (bytes "fallback") in
    if is_canceled class
    then stopped w.world.registry (bytes "neutral")
    else if not (fallback_allowed class) || leb (budget policy) w.attempts
    then stopped registry health
    else Move.carry (record w {
      terminal_row = row;
      world = record w.world { registry = registry; recorder = rec };
    })

unfoldable pub after_reply : AttemptPolicy → Bytes → Egress → Reading → ℕ → Walk → Reply → Move
after_reply policy id e at start_row w (Reply.fail error class) =
    after_failure policy id e at start_row error class (record w {
      last_class = class;
      last_error = some error;
      world = record w.world { limiter = release w.world.limiter id };
    })
after_reply policy id e at start_row w (Reply.serve status) = Move.done record {
  served = some status;
  egress = id;
  attempts = w.attempts;
  class = Class.success;
  error = none;
  world = record w.world {
    registry = observe w.world.registry at.now at.armed_at (health_key e) true policy.health_policy;
  };
}

unfoldable pub exhausted : Bytes
exhausted = bytes "none of the eligible egresses could serve the request"

stop_row : Recorder → Option ℕ → Recorder
stop_row rec none = rec
stop_row rec (some i) = annotate_at rec i (λ row. record row { retry_decision = bytes "stop" })

end_with : Walk → Option UpstreamError → Answer
unfolding stop_row
end_with w none = record {
  served = none;
  egress = w.last_id;
  attempts = w.attempts;
  class = w.last_class;
  error = some record { status = 502; message = exhausted };
  world = w.world;
}
end_with w (some error) = record {
  served = none;
  egress = w.last_id;
  attempts = w.attempts;
  class = w.last_class;
  error = some error;
  world = record w.world { recorder = stop_row w.world.recorder w.terminal_row };
}

-- behind the loop
unfoldable pub finish : Walk → Answer
unfolding end_with
finish w = end_with w w.last_error

-- the plan's entries: an id without an egress beside it is an unknown one
unfoldable pub entries : List Bytes → List (Option Egress) → List (Bytes × Option Egress)
entries [] es = []
entries (id ∷ ids) [] = (id, none) ∷ entries ids []
entries (id ∷ ids) (e ∷ es) = (id, e) ∷ entries ids es

-- policy.MaxConcurrency[id] > 0 ? InFlight(id) : 0
abbrev occupancy : AttemptPolicy → Bytes → Limiter → ℕ
occupancy policy id l = if ltb_ℤ (pos 0) (cap_of policy id) then in_flight l id else 0

module _ (decode : Bytes → Option ErrorBody) (net : ℕ → ℕ → Dial) (clock : ℕ → Reading)
    (has_client : Egress → Bool) (policy : AttemptPolicy) where
  -- the rows of the attempt get its identity; `none` stands for a call that does not return
  unfoldable pub after_call :
      Bytes → Egress → ℕ → Walk → Option (Reply × Recorder × ℕ) → Option Move
  after_call id e start_row w none = none
  after_call id e start_row w (some (reply, rec, dials)) =
      let identified = annotate rec start_row (λ row. record row {
        egress = id;
        egress_type = proxy_type_name e;
        attempt = w.attempts;
        in_flight = occupancy policy id w.world.limiter;
      }) in
      some (
        after_reply policy id e (clock w.attempts) start_row
          (record w { world = record w.world { recorder = identified } }) reply)

  unfoldable pub attempt : Bytes → Egress → Walk → Option Move
  unfolding after_call
  attempt id e w =
      after_call id e (length w.world.recorder.rows) w
        (do_classified decode (net w.attempts) w.world.recorder)

  unfoldable pub move : Bytes × Option Egress → Walk → Option Move
  unfolding attempt
  move (id, none) w = some (skip policy w (skip_row id [] (bytes "unknown_egress")))
  move (id, some e) w =
      let (limiter, granted) = acquire w.world.limiter id (cap_of policy id) in
      if not (has_client e)
      then some (skip policy w (skip_row id (proxy_type_name e) (bytes "transport_build")))
      else if not granted
      then some (skip policy w (skip_row id (proxy_type_name e) (bytes "slot_full")))
      else attempt id e (record w {
        attempts = w.attempts + 1;
        last_id = id;
        world = record w.world { limiter = limiter };
      })

  abbrev pub after_move : (Walk → Option Answer) → Option Move → Option Answer
  after_move next none = none
  after_move next (some (Move.carry w)) = next w
  after_move next (some (Move.leave w)) = some (finish w)
  after_move next (some (Move.done a)) = some a

  unfoldable pub walk : List (Bytes × Option Egress) → Walk → Option Answer
  walk [] w = some (finish w)
  walk (entry ∷ rest) w = after_move (λ w'. walk rest w') (move entry w)

  unfoldable pub execute : RoutePlan → World → Option Answer
  execute plan world = walk (entries plan.attempts plan.egresses) (start world)
