-- ===== src/Identity/UserAgent/Flights.antt =====
-- Any interleaving of callers of Warm.
use ocfp.Prelude.{
  ℕ, suc, ◌≡◌, ◌⊎◌, refl, sym, ap, ◌∙◌, Bool, true, false, not, ◌&&◌, Option, none, some, List, [],
  ◌∷◌, ltb, ◌-◌, Bool-cases, inl, inr, arith,
}
use ocfp.Config.Validate.{is_empty}
use ocfp.Identity.UserAgent.{Triple, Agent, zero_triple, new_agent, enter, leave}

-- the cache, the callers that are fetching, and the triples that fetches have returned
pub record World : Type 0 where
  pub agent : Agent
  pub fetching : ℕ
  pub fetched : List Triple

abbrev pub count : Bool → ℕ
count true = 1
count false = 0

abbrev pub with_flight : Bool → ℕ → ℕ
with_flight true n = suc n
with_flight false n = n

abbrev pub noted : Option Triple → List Triple → List Triple
noted none ts = ts
noted (some t) ts = t ∷ ts

module _ (fallback : Triple) (ttl : ℕ) where
  abbrev pub after_enter : World → ℕ → Bool → World
  unfolding enter
  after_enter w now force = record w {
    agent = (enter fallback ttl w.agent now force).0;
    fetching = with_flight (enter fallback ttl w.agent now force).1 w.fetching;
  }

  abbrev pub after_leave : World → ℕ → ℕ → Option Triple → World
  unfolding leave
  after_leave w others now result = record {
    agent = leave w.agent now result;
    fetching = others;
    fetched = noted result w.fetched;
  }

  -- a caller enters, or one that is fetching leaves
  pub data Step : World → World → Type 0 where
    enters : (w : World) (now : ℕ) (force : Bool) → Step w (after_enter w now force)
    leaves :
        (w : World) (others now : ℕ) (result : Option Triple)
        → w.fetching ≡ suc others
        → Step w (after_leave w others now result)

  pub data Reach (w : World) : World → Type 0 where
    here : Reach w w
    next : {t u : World} → Reach w t → Step t u → Reach w u

  abbrev pub initial : World
  initial = record { agent = new_agent; fetching = 0; fetched = [] }

  -- one of the triples
  abbrev pub IsOne : Triple → List Triple → Type 0
  IsOne t [] = ⊥
  IsOne t (u ∷ us) = (t ≡ u) ⊎ IsOne t us

  pub record IsSingle (w : World) : Type 0 where
    pub one_flight : w.fetching ≡ count w.agent.inflight
    pub whole : (w.agent.triple ≡ zero_triple) ⊎ IsOne w.agent.triple w.fetched

  enter-IsSingle :
      (w : World) (now : ℕ) (force : Bool) → IsSingle w → IsSingle (after_enter w now force)
  unfolding enter
  enter-IsSingle w now force s =
      elim (Bool-cases (
        not force && not (is_empty w.agent.triple.opencode) && ltb (now - w.agent.cached_at) ttl)) [
          | inl e ↦ record { one_flight = rw e s.one_flight; whole = rw e s.whole }
          | inr e ↦ elim (Bool-cases w.agent.inflight) [
            | inl f ↦ record {
              one_flight = rw (e, f) (s.one_flight ∙ ap count f);
              whole = rw (e, f) s.whole;
            }
            | inr f ↦
                let none_yet : w.fetching ≡ 0 = s.one_flight ∙ ap count f in
                record {
                  one_flight = rw (e, f) (omega (arith, none_yet));
                  whole = rw (e, f) s.whole;
                }
          ]
        ]

  -- the flag is on while a caller fetches, so nobody is left behind the one that leaves
  alone : (b : Bool) (others : ℕ) → suc others ≡ count b → others ≡ 0
  alone true others h = omega (arith, h)
  alone false others h = absurd (omega (arith, h))

  leave-IsSingle :
      (w : World) (others now : ℕ) (result : Option Triple)
      → w.fetching ≡ suc others
      → IsSingle w
      → IsSingle (after_leave w others now result)
  unfolding leave
  leave-IsSingle w others now none f s = record {
    one_flight = alone w.agent.inflight others (sym f ∙ s.one_flight);
    whole = s.whole;
  }
  leave-IsSingle w others now (some t) f s = record {
    one_flight = alone w.agent.inflight others (sym f ∙ s.one_flight);
    whole = inr (inl refl);
  }

  -- However callers of Warm interleave, at most one of them fetches, exactly when the flag is on, and the cached
  -- triple is the empty one or one that a single fetch returned whole.
  pub reach-IsSingle : {w : World} → Reach initial w → IsSingle w
  reach-IsSingle Reach.here = record { one_flight = refl; whole = inl refl }
  reach-IsSingle (Reach.next r (Step.enters w now force)) =
      enter-IsSingle w now force (reach-IsSingle r)
  reach-IsSingle (Reach.next r (Step.leaves w others now result f)) =
      leave-IsSingle w others now result f (reach-IsSingle r)
