-- ===== src/IntelliCenter/Engine/Rounds/Agree.antt =====
-- Two users of the rounds of `Run` whose steps agree, through a map of their states.
use pentameter.Prelude.{ℕ, List, [], ◌∷◌, map, ◌≡◌, refl, sym, ap, ◌∙◌, if_map, if◌then◌else◌}
use pentameter.IntelliCenter.Result.{Error, Result, ok, err}
use pentameter.IntelliCenter.Engine.Rounds.{
  RunSteps, after_step, connected, run_round, run, next_engine_delay,
}

abbrev pub over : {S T : Type 0} → (S → T) → Result (Unit {0}) × S → Result (Unit {0}) × T
over f (result, s) = (result, f s)

-- A map between the states of two rounds that every step commutes with.
pub record Agrees {S T : Type 0} (steps : RunSteps S) (others : RunSteps T) (f : S → T)
    : Type 0 where
  pub resolve : (s : S) → over f (steps.resolve s) ≡ others.resolve (f s)
  pub connect_req : (s : S) → over f (steps.connect_req s) ≡ others.connect_req (f s)
  pub connect_push : (s : S) → over f (steps.connect_push s) ≡ others.connect_push (f s)
  pub session : (s : S) → over f (steps.session s) ≡ others.session (f s)
  pub on_scan : (e : Error) (s : S) → f (steps.on_scan e s) ≡ others.on_scan e (f s)
  pub close_req : (s : S) → f (steps.close_req s) ≡ others.close_req (f s)
  pub close_push : (s : S) → f (steps.close_push s) ≡ others.close_push (f s)
  pub drop_req : (s : S) → f (steps.drop_req s) ≡ others.drop_req (f s)
  pub canceled : (s : S) → steps.canceled s ≡ others.canceled (f s)

module _ {S T : Type 0} (steps : RunSteps S) (others : RunSteps T) (f : S → T)
    (a : Agrees steps others f) where
  after_step-agrees :
      (x : Result (Unit {0}) × S) (y : Result (Unit {0}) × T) (next failed : S → S)
      (next' failed' : T → T)
      → over f x ≡ y
      → ((s : S) → f (next s) ≡ next' (f s))
      → ((s : S) → f (failed s) ≡ failed' (f s))
      → f (after_step steps x next failed) ≡ after_step others y next' failed'
  unfolding after_step
  after_step-agrees (ok u, s) y next failed next' failed' same goes fails =
      goes s ∙ ap (λ z. after_step others z next' failed') same
  after_step-agrees (err e, s) y next failed next' failed' same goes fails =
      fails (steps.on_scan e s)
      ∙ ap failed' (a.on_scan e s)
      ∙ ap (λ z. after_step others z next' failed') same

  connected-agrees : (s : S) → f (connected steps s) ≡ connected others (f s)
  unfolding connected
  connected-agrees s =
      after_step-agrees _ _ _ _ _ _ (a.connect_req s)
        (λ t.
          after_step-agrees _ _ _ _ _ _ (a.connect_push t)
            (λ u. after_step-agrees _ _ _ _ _ _ (a.session u) (λ v. refl) (λ v. refl)) a.close_req)
        (λ t. refl)

  pub run_round-agrees : (s : S) → f (run_round steps s) ≡ run_round others (f s)
  unfolding run_round
  run_round-agrees s =
      after_step-agrees _ _ _ _ _ _ (a.resolve s)
        (λ t.
          a.drop_req _
          ∙ ap others.drop_req (
              a.close_push _
              ∙ ap others.close_push (a.close_req _ ∙ ap others.close_req (connected-agrees t))))
        (λ t. refl)

module _ {A S T : Type 0} (steps : A → RunSteps S) (others : A → RunSteps T) (f : S → T)
    (agree : (a : A) → Agrees (steps a) (others a) f) where
  -- What each of the rounds commutes with, `Run` commutes with.
  pub run-agrees :
      (rounds : List A) (delay : ℕ) (s : S)
      → f (run (map steps rounds) delay s).1 ≡ (run (map others rounds) delay (f s)).1
  unfolding run
  run-agrees [] delay s = refl
  run-agrees (a ∷ rounds) delay s =
      let next = next_engine_delay delay in
      let t = run_round (steps a) s in
      let t' = run_round (others a) (f s) in
      let same : f t ≡ t' = run_round-agrees (steps a) (others a) f (agree a) s in
      let rest = λ (u : T). (run (map others rounds) next u).1 in
      if_map (λ (p : List ℕ × S). f p.1) ((steps a).canceled t) same
        (run-agrees rounds next t ∙ ap rest same)
      ∙ (ap (λ b. if b then t' else rest t') ((agree a).canceled t ∙ ap (others a).canceled same)
          ∙ sym (if_map (λ (p : List ℕ × T). p.1) ((others a).canceled t') refl refl))
