-- ===== src/IntelliCenter/Engine/Backoff.antt =====
-- The delays between the rounds of `Run`.
use pentameter.Prelude.{
  ℕ, suc, false, List, [], ◌∷◌, ◌≡◌, refl, ap, ◌∙◌, map, replicate, length, if_split,
}
use pentameter.Prelude.Float.{Floats}
use pentameter.IntelliCenter.Engine.Rounds.{
  RunSteps, run, run_round, seconds, engine_reconnect, max_delay, next_engine_delay,
}
use pentameter.IntelliCenter.Engine.Running.{Hooks, Round, Running, engine_steps}

-- From a state on, no round ends with the context cancelled.
unfoldable pub GoesOn : {S : Type 0} → List (RunSteps S) → S → Type 0
GoesOn [] s = Unit
GoesOn (steps ∷ rounds) s =
    (steps.canceled (run_round steps s) ≡ false) × GoesOn rounds (run_round steps s)

module _ {S : Type 0} where
  -- A round that is not the last sleeps its delay, and the next rounds follow.
  run-goes :
      (steps : RunSteps S) (rounds : List (RunSteps S)) (delay : ℕ) (s : S)
      → steps.canceled (run_round steps s) ≡ false
      → (run (steps ∷ rounds) delay s).0
        ≡ delay ∷ (run rounds (next_engine_delay delay) (run_round steps s)).0
  unfolding run
  run-goes steps rounds delay s goes =
      let rest = run rounds (next_engine_delay delay) (run_round steps s) in
      if_split (λ (p : List ℕ × S). p.0 ≡ delay ∷ rest.0) (steps.canceled (run_round steps s))
        (λ stops. let never : ⊥ = cc in absurd never) (λ _. refl)

  -- Once at the maximum, the delay stays there.
  run-max :
      (rounds : List (RunSteps S)) (s : S)
      → GoesOn rounds s
      → (run rounds max_delay s).0 ≡ replicate (length rounds) max_delay
  unfolding run next_engine_delay GoesOn
  run-max [] s goes = refl
  run-max (steps ∷ rounds) s (here, later) =
      run-goes steps rounds max_delay s here
      ∙ ap (λ ds. max_delay ∷ ds) (run-max rounds (run_round steps s) later)

  run_delays :
      (a b c d : RunSteps S) (rounds : List (RunSteps S)) (s : S)
      → GoesOn (a ∷ b ∷ c ∷ d ∷ rounds) s
      → (run (a ∷ b ∷ c ∷ d ∷ rounds) engine_reconnect s).0
        ≡ seconds 2 ∷ seconds 4 ∷ seconds 8 ∷ seconds 16 ∷ replicate (length rounds) (seconds 30)
  unfolding next_engine_delay GoesOn
  run_delays a b c d rounds s (first, (second, (third, (fourth, later)))) =
      run-goes a _ _ s first
      ∙ ap (λ ds. seconds 2 ∷ ds)
          (run-goes b _ _ _ second
            ∙ ap (λ ds. seconds 4 ∷ ds)
                (run-goes c _ _ _ third
                  ∙ ap (λ ds. seconds 8 ∷ ds)
                      (run-goes d _ _ _ fourth
                        ∙ ap (λ ds. seconds 16 ∷ ds) (run-max rounds _ later))))

length-steps : {A B : Type 0} (f : A → B) (as' : List A) → length (map f as') ≡ length as'
length-steps f [] = refl
length-steps f (a ∷ as') = ap suc (length-steps f as')

module _ {F H : Type 0} ⦃fl : Floats F⦄ (hooks : Hooks F H) where
  -- If none of the rounds ends with the context cancelled, `Run` sleeps 2, 4, 8 and 16 seconds after
  -- its first four rounds and 30 seconds after each further one, however long the sessions of the
  -- rounds were: the delay is never reset.
  pub run_engine-delays :
      (a b c d : Round) (rounds : List Round) (r : Running F H)
      → GoesOn (map (engine_steps hooks) (a ∷ b ∷ c ∷ d ∷ rounds)) r
      → (run (map (engine_steps hooks) (a ∷ b ∷ c ∷ d ∷ rounds)) engine_reconnect r).0
        ≡ seconds 2 ∷ seconds 4 ∷ seconds 8 ∷ seconds 16 ∷ replicate (length rounds) (seconds 30)
  run_engine-delays a b c d rounds r goes =
      let s = engine_steps hooks in
      run_delays (s a) (s b) (s c) (s d) (map s rounds) r goes
      ∙ ap (λ n. seconds 2 ∷ seconds 4 ∷ seconds 8 ∷ seconds 16 ∷ replicate n (seconds 30))
          (length-steps s rounds)
