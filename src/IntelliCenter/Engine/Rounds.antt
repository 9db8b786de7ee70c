-- ===== src/IntelliCenter/Engine/Rounds.antt =====
-- The round loop of `Run` in engine.go, over the steps of a round: the lookup of the host, the two
-- connections, the session, and the delay that grows from round to round.
pub mod Kept
pub mod Agree
use pentameter.Prelude.{ℕ, ◌*◌, Bool, List, [], ◌∷◌, ltb, if◌then◌else◌}
use pentameter.IntelliCenter.Result.{Error, Result, ok, err}

-- Durations are in nanoseconds.
abbrev pub seconds : ℕ → ℕ
seconds n = n * 1_000_000_000

abbrev pub engine_reconnect : ℕ
engine_reconnect = seconds 2

abbrev pub max_delay : ℕ
max_delay = seconds 30

-- `nextEngineDelay`
unfoldable pub next_engine_delay : ℕ → ℕ
next_engine_delay d = if ltb max_delay (d * 2) then max_delay else d * 2

-- The steps of one round of `Run`, over the state that they change: the mDNS lookup, the two
-- connections, the session, and the closing of both connections.
pub record RunSteps (S : Type 0) : Type 0 where
  pub resolve : S → Result (Unit {0}) × S
  pub connect_req : S → Result (Unit {0}) × S
  pub connect_push : S → Result (Unit {0}) × S
  pub session : S → Result (Unit {0}) × S
  -- what `OnScan` does with the error
  pub on_scan : Error → S → S
  pub close_req : S → S
  pub close_push : S → S
  -- `setReqClient(nil)`
  pub drop_req : S → S
  -- `sleepCtx` returns false: the context is cancelled before the delay is over
  pub canceled : S → Bool

module _ {S : Type 0} (steps : RunSteps S) where
  -- The error of a step goes to `OnScan`, and then to `failed`; a success goes on.
  after_step : Result (Unit {0}) × S → (S → S) → (S → S) → S
  after_step (ok _, s) next failed = next s
  after_step (err e, s) next failed = failed (steps.on_scan e s)

  -- The two connections and the session.
  connected : S → S
  unfolding after_step
  connected s =
      after_step (steps.connect_req s)
        (λ t.
          after_step (steps.connect_push t) (λ u. after_step (steps.session u) (λ v. v) (λ v. v))
            steps.close_req)
        (λ t. t)

  -- One round of the loop of `Run`, up to its sleep.
  unfoldable pub run_round : S → S
  unfolding after_step connected
  run_round s =
      after_step (steps.resolve s)
        (λ t. steps.drop_req (steps.close_push (steps.close_req (connected t)))) (λ t. t)

-- `Run`, round by round: the delays that it begins to sleep, and the state. A round in which the
-- context is cancelled is the last; after the last round of the list the sleep is cut short.
module _ {S : Type 0} where
  unfoldable pub run : List (RunSteps S) → ℕ → S → List ℕ × S
  run [] delay s = ([], s)
  run (steps ∷ rounds) delay s =
      let t = run_round steps s in
      let (delays, u) = run rounds (next_engine_delay delay) t in
      if steps.canceled t then (delay ∷ [], t) else (delay ∷ delays, u)
