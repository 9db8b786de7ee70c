-- ===== src/Monitor/Exporter/Running.antt =====
-- `runMetricsEngine` of metrics_engine.go over the whole of `Run`: the exporter is a user of the engine
-- that only listens.
use pentameter.Prelude.{ℕ, ◌+◌, List, [], ◌∷◌, ◌≡◌, refl, sym, ap, subst, ◌∙◌}
use pentameter.Prelude.Float.{Floats}
use pentameter.IntelliCenter.Result.{ok, err}
use pentameter.IntelliCenter.Engine.{Engine}
use pentameter.IntelliCenter.Engine.Running.{Hooks, Round, before_run, run_engine}
use pentameter.IntelliCenter.Engine.Running.Natural.{
  Call, scanned, polled, pushed, changed, listener,
}
use pentameter.IntelliCenter.Engine.Running.Log.{log_hooks, react_all, run_engine-heard}
use pentameter.Monitor.Exporter.{
  Exporter, Event, new_exporter, on_scan, on_scan_failed, on_change, handle, export,
}
use pentameter.Monitor.Exporter.Follows.{shown, nothing_shown, Follows, export-Follows}

-- The exporter, and the number of the readings of the clock so far.
abbrev pub Clocked : Type 0 → Type 0
Clocked F = Exporter F × ℕ

module _ {F : Type 0} ⦃fl : Floats F⦄ (clock : ℕ → ℕ) where
  -- OnScan and the loop over the changes; the other hooks are nil.
  unfoldable pub export_call : Call F → Clocked F → Clocked F
  unfolding on_scan on_scan_failed on_change
  export_call (scanned (ok _) e) (x, n) = (on_scan e (clock n) x, n + 1)
  export_call (scanned (err _) e) (x, n) = (on_scan_failed x, n)
  export_call (polled baseline e) s = s
  export_call (pushed msg e) s = s
  export_call (changed i c e) (x, n) = (on_change e x, n)

  abbrev pub metrics_hooks : Hooks F (Clocked F)
  metrics_hooks = listener export_call

  -- The events of the exporter in a log, from a number of readings of the clock on.
  unfoldable pub events_of : ℕ → List (Call F) → List (Event F)
  events_of n [] = []
  events_of n (scanned (ok _) e ∷ calls) = Event.scanned e (clock n) ∷ events_of (n + 1) calls
  events_of n (scanned (err _) e ∷ calls) = Event.scan_failed ∷ events_of n calls
  events_of n (polled baseline e ∷ calls) = events_of n calls
  events_of n (pushed msg e ∷ calls) = events_of n calls
  events_of n (changed i c e ∷ calls) = Event.changed e ∷ events_of n calls

  -- The exporter handles the events of the log.
  export_calls-export :
      (calls : List (Call F)) (x : Exporter F) (n : ℕ)
      → (react_all export_call calls (x, n)).0 ≡ export (events_of n calls) x
  unfolding react_all export_call events_of export handle
  export_calls-export [] x n = refl
  export_calls-export (scanned (ok _) e ∷ calls) x n =
      export_calls-export calls (on_scan e (clock n) x) (n + 1)
  export_calls-export (scanned (err _) e ∷ calls) x n =
      export_calls-export calls (on_scan_failed x) n
  export_calls-export (polled baseline e ∷ calls) x n = export_calls-export calls x n
  export_calls-export (pushed msg e ∷ calls) x n = export_calls-export calls x n
  export_calls-export (changed i c e ∷ calls) x n = export_calls-export calls (on_change e x) n

  -- Over any rounds of `Run`, the exporter follows all that the engine calls, the late ticks of earlier
  -- sessions included. Before the first successful scan the gauges are those of a new monitor;
  -- afterwards they come from a full refresh from the engine of the last successful scan or received
  -- change. The connection gauge tells how the last call of OnScan went, and the timestamp is the
  -- clock's reading at the last successful one.
  pub run_engine-Follows :
      (rounds : List Round) (e : Engine F)
      → Follows
          (shown (events_of 0 (run_engine log_hooks rounds (before_run e [])).heard) nothing_shown)
          (run_engine metrics_hooks rounds (before_run e (new_exporter, 0))).heard.0
  run_engine-Follows rounds e =
      let calls = (run_engine log_hooks rounds (before_run e [])).heard in
      let x : Clocked F = (new_exporter, 0) in
      let exports =
        ap (λ (s : Clocked F). s.0) (run_engine-heard export_call x rounds e)
        ∙ export_calls-export calls new_exporter 0 in
      subst (Follows (shown (events_of 0 calls) nothing_shown)) (sym exports)
        (export-Follows (events_of 0 calls))
