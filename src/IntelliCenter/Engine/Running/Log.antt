-- ===== src/IntelliCenter/Engine/Running/Log.antt =====
-- The user of the engine that writes down all that it hears. Every other user that only listens is a
-- fold over that log.
use pentameter.Prelude.{List, [], ◌∷◌, ◌++◌, ◌≡◌, refl, sym, ap}
use pentameter.Prelude.Float.{Floats}
use pentameter.IntelliCenter.Engine.{Engine}
use pentameter.IntelliCenter.Engine.Running.{Hooks, Round, Running, before_run, run_engine}
use pentameter.IntelliCenter.Engine.Running.Natural.{Call, listener, seen, run_engine-seen}

abbrev pub note : {F : Type 0} → Call F → List (Call F) → List (Call F)
note call calls = calls ++ call ∷ []

abbrev pub log_hooks : {F : Type 0} → Hooks F (List (Call F))
log_hooks = listener note

module _ {F H : Type 0} (react : Call F → H → H) where
  -- What a user makes of the calls of a log.
  unfoldable pub react_all : List (Call F) → H → H
  react_all [] h = h
  react_all (call ∷ calls) h = react_all calls (react call h)

  pub react_all-append :
      (calls more : List (Call F)) (h : H)
      → react_all (calls ++ more) h ≡ react_all more (react_all calls h)
  unfolding react_all
  react_all-append [] more h = refl
  react_all-append (call ∷ calls) more h = react_all-append calls more (react call h)

-- `Run` with a user that only listens ends where `Run` with a log ends, the user having folded the
-- log, from any log that it has folded already.
module _ {F H : Type 0} ⦃fl : Floats F⦄ (react : Call F → H → H) (h : H) where
  pub run_engine-folds :
      (rounds : List Round) (r : Running F (List (Call F)))
      → seen (λ calls. react_all react calls h) (run_engine log_hooks rounds r)
        ≡ run_engine (listener react) rounds (seen (λ calls. react_all react calls h) r)
  unfolding react_all
  run_engine-folds rounds r =
      run_engine-seen note react (λ calls. react_all react calls h)
        (λ call calls. react_all-append react calls (call ∷ []) h) rounds r

  -- What the user has become, from the log alone.
  pub run_engine-heard :
      (rounds : List Round) (e : Engine F)
      → (run_engine (listener react) rounds (before_run e h)).heard
        ≡ react_all react (run_engine log_hooks rounds (before_run e [])).heard h
  unfolding before_run react_all
  run_engine-heard rounds e =
      ap (λ (r : Running F H). r.heard) (sym (run_engine-folds rounds (before_run e [])))
