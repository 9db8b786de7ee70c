-- ===== src/IntelliCenter/Engine/Rounds/Kept.antt =====
-- What the rounds of `Run` keep, and how a round can go.
use pentameter.Prelude.{ℕ, List, [], ◌∷◌, ◌≡◌, refl, inl, inr, All, if_elim}
use pentameter.IntelliCenter.Result.{Error, Result, ok, err, Result-cases}
use pentameter.IntelliCenter.Engine.Rounds.{
  RunSteps, after_step, connected, run_round, run, next_engine_delay,
}

-- What every step of a round keeps.
pub record Keeps {S : Type 0} (steps : RunSteps S) (P : S → Type 0) : Type 0 where
  pub resolves : (s : S) → P s → P (steps.resolve s).1
  pub connects_req : (s : S) → P s → P (steps.connect_req s).1
  pub connects_push : (s : S) → P s → P (steps.connect_push s).1
  pub lives : (s : S) → P s → P (steps.session s).1
  pub hears : (e : Error) (s : S) → P s → P (steps.on_scan e s)
  pub closes_req : (s : S) → P s → P (steps.close_req s)
  pub closes_push : (s : S) → P s → P (steps.close_push s)
  pub drops : (s : S) → P s → P (steps.drop_req s)

module _ {S : Type 0} (steps : RunSteps S) where
  after_step-keeps :
      (P : S → Type 0)
      → ((e : Error) (s : S) → P s → P (steps.on_scan e s))
      → (x : Result (Unit {0}) × S) (next failed : S → S) → ((s : S) → P s → P (next s))
      → ((s : S) → P s → P (failed s))
      → P x.1
      → P (after_step steps x next failed)
  unfolding after_step
  after_step-keeps P hears (ok _, s) next failed goes fails h = goes s h
  after_step-keeps P hears (err e, s) next failed goes fails h =
      fails (steps.on_scan e s) (hears e s h)

  connected-keeps : (P : S → Type 0) → Keeps steps P → (s : S) → P s → P (connected steps s)
  unfolding connected
  connected-keeps P k s h =
      let on = after_step-keeps P k.hears in
      on (steps.connect_req s) _ _
        (λ t ht.
          on (steps.connect_push t) _ _
            (λ u hu. on (steps.session u) _ _ (λ v hv. hv) (λ v hv. hv) (k.lives u hu)) k.closes_req
            (k.connects_push t ht))
        (λ t ht. ht) (k.connects_req s h)

  -- What every step keeps, the round keeps.
  pub run_round-keeps : (P : S → Type 0) → Keeps steps P → (s : S) → P s → P (run_round steps s)
  unfolding run_round
  run_round-keeps P k s h =
      after_step-keeps P k.hears (steps.resolve s) _ _
        (λ t ht. k.drops _ (k.closes_push _ (k.closes_req _ (connected-keeps P k t ht))))
        (λ t ht. ht) (k.resolves s h)

module _ {S : Type 0} where
  -- What every round keeps, `Run` keeps.
  pub run-keeps :
      (P : S → Type 0) (rounds : List (RunSteps S))
      → All (λ steps. (s : S) → P s → P (run_round steps s)) rounds
      → (delay : ℕ) (s : S) → P s
      → P (run rounds delay s).1
  unfolding run
  run-keeps P [] h delay s hs = hs
  run-keeps P (steps ∷ rounds) (here, later) delay s hs =
      let ht = here s hs in
      if_elim (λ (p : List ℕ × S). P p.1) (steps.canceled (run_round steps s)) ht
        (run-keeps P rounds later (next_engine_delay delay) (run_round steps s) ht)

-- The five ways in which a round goes, and the state that each leaves.
module _ {S : Type 0} (steps : RunSteps S) where
  abbrev pub found : S → S
  found s = (steps.resolve s).1

  abbrev pub asked : S → S
  asked s = (steps.connect_req (found s)).1

  abbrev pub both : S → S
  both s = (steps.connect_push (asked s)).1

  abbrev pub closed : S → S
  closed s = steps.drop_req (steps.close_push (steps.close_req s))

  pub data Outcome (s : S) : Type 0 where
    no_host : (e : Error) → run_round steps s ≡ steps.on_scan e (found s) → Outcome s
    no_req : (e : Error) → run_round steps s ≡ closed (steps.on_scan e (asked s)) → Outcome s
    no_push :
        (e : Error)
        → run_round steps s ≡ closed (steps.close_req (steps.on_scan e (both s)))
        → Outcome s
    ended :
        (e : Error)
        → (steps.session (both s)).0 ≡ err e
        → run_round steps s ≡ closed (steps.on_scan e (steps.session (both s)).1)
        → Outcome s
    stopped :
        {u : Unit {0}}
        → (steps.session (both s)).0 ≡ ok u
        → run_round steps s ≡ closed (steps.session (both s)).1
        → Outcome s

  pub run_round-outcome : (s : S) → Outcome s
  unfolding run_round connected after_step
  run_round-outcome s = elim (Result-cases (steps.resolve s).0) [
    | inr (e, bad) ↦ no_host e (rw bad refl)
    | inl (_, host) ↦ elim (Result-cases (steps.connect_req (found s)).0) [
      | inr (e, bad) ↦ no_req e (rw (host, after_step, connected, bad) refl)
      | inl (_, req) ↦ elim (Result-cases (steps.connect_push (asked s)).0) [
        | inr (e, bad) ↦ no_push e (rw (host, after_step, connected, req, after_step, bad) refl)
        | inl (_, push) ↦ elim (Result-cases (steps.session (both s)).0) [
          | inr (e, bad) ↦
              ended e bad
                (rw (host, after_step, connected, req, after_step, push, after_step, bad) refl)
          | inl (_, good) ↦
              stopped good
                (rw (host, after_step, connected, req, after_step, push, after_step, good) refl)
        ]
      ]
    ]
  ]
