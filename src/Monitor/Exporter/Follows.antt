-- ===== src/Monitor/Exporter/Follows.antt =====
-- What the exporter of metrics_engine.go shows after any run of events.
use pentameter.Prelude.{
  ℕ, Bool, true, false, Option, none, some, List, [], ◌∷◌, ◌≡◌, refl, ap, sym, subst, ◌∙◌, if_elim,
  if◌then◌else◌,
}
use pentameter.Prelude.Float.{Floats}
use pentameter.IntelliCenter.Engine.{Engine}
use pentameter.Monitor.State.{PoolMonitor, new_pool_monitor}
use pentameter.Monitor.Refresh.{refresh_from_engine}
use pentameter.Monitor.Exporter.{
  Exporter, new_exporter, Event, scan_failed, scanned, changed, recompute, on_scan_failed, on_scan,
  on_change, handle, export,
}

-- What a reader of the gauges is shown: the engine that they were last computed from, how the last
-- scan went, and when the last one succeeded.
pub record Shown (F : Type 0) : Type 0 where
  pub engine : Option (Engine F)
  pub failing : Option Bool
  pub refreshed : Option ℕ

module _ {F : Type 0} where
  abbrev pub nothing_shown : Shown F
  nothing_shown = record { engine = none; failing = none; refreshed = none }

  -- A change shows from the first successful scan on.
  abbrev pub changed_from : Engine F → Option (Engine F) → Option (Engine F)
  changed_from e none = none
  changed_from e (some d) = some e

  abbrev pub show : Event F → Shown F → Shown F
  show scan_failed v = record v { failing = some true }
  show (scanned e now) v = record { engine = some e; failing = some false; refreshed = some now }
  show (changed e) v = record v { engine = changed_from e v.engine }

  abbrev pub shown : List (Event F) → Shown F → Shown F
  shown [] v = v
  shown (v ∷ events) w = shown events (show v w)

module _ {F : Type 0} ⦃fl : Floats F⦄ where
  -- The monitor is new, or all that it exports comes from a refresh from that engine.
  abbrev pub IsFrom : Option (Engine F) → Exporter F → Type 0
  IsFrom none x = (x.ready ≡ false) × (x.pm ≡ new_pool_monitor false)
  IsFrom (some e) x = (x.ready ≡ true) × ((m : PoolMonitor F) × (x.pm ≡ refresh_from_engine e m))

  unfoldable pub Follows : Shown F → Exporter F → Type 0
  Follows v x =
      IsFrom v.engine x
      × (x.connection_failure ≡ v.failing)
      × (x.last_refresh_timestamp ≡ v.refreshed)

  failed-IsFrom :
      (o : Option (Engine F)) (x : Exporter F) → IsFrom o x → IsFrom o (on_scan_failed x)
  unfolding on_scan_failed
  failed-IsFrom none x h = h
  failed-IsFrom (some e) x h = h

  on_change-idle : (e : Engine F) (x : Exporter F) → x.ready ≡ false → on_change e x ≡ x
  unfolding on_change
  on_change-idle e x h = ap (λ b. if b then recompute e x else x) h

  on_change-ready : (e : Engine F) (x : Exporter F) → x.ready ≡ true → on_change e x ≡ recompute e x
  unfolding on_change
  on_change-ready e x h = ap (λ b. if b then recompute e x else x) h

  changed-IsFrom :
      (e : Engine F) (o : Option (Engine F)) (x : Exporter F)
      → IsFrom o x
      → IsFrom (changed_from e o) (on_change e x)
  unfolding recompute
  changed-IsFrom e none x (idle, new) =
      subst (IsFrom none) (sym (on_change-idle e x idle)) (idle, new)
  changed-IsFrom e (some d) x (ready, from) =
      subst (IsFrom (some e)) (sym (on_change-ready e x ready)) (ready, (x.pm, refl))

  changed-keeps :
      (e : Engine F) (x : Exporter F)
      → ((on_change e x).connection_failure ≡ x.connection_failure)
        × ((on_change e x).last_refresh_timestamp ≡ x.last_refresh_timestamp)
  unfolding on_change recompute
  changed-keeps e x =
      if_elim
        (λ (y : Exporter F).
          (y.connection_failure ≡ x.connection_failure)
          × (y.last_refresh_timestamp ≡ x.last_refresh_timestamp))
        x.ready (refl, refl) (refl, refl)

  handle-Follows :
      (v : Event F) (w : Shown F) (x : Exporter F) → Follows w x → Follows (show v w) (handle v x)
  unfolding Follows handle on_scan_failed on_scan recompute
  handle-Follows scan_failed w x (from, failing, refreshed) =
      (failed-IsFrom w.engine x from, refl, refreshed)
  handle-Follows (scanned e now) w x h = ((refl, (x.pm, refl)), refl, refl)
  handle-Follows (changed e) w x (from, failing, refreshed) =
      let (k, l) = changed-keeps e x in
      (changed-IsFrom e w.engine x from, k ∙ failing, l ∙ refreshed)

  export-from :
      (events : List (Event F)) (w : Shown F) (x : Exporter F)
      → Follows w x
      → Follows (shown events w) (export events x)
  unfolding export
  export-from [] w x h = h
  export-from (v ∷ events) w x h =
      export-from events (show v w) (handle v x) (handle-Follows v w x h)

  -- After any run of scans and changes, the exporter shows: before the first successful scan, the
  -- gauges of a new monitor, whatever changes have come; afterwards, a full refresh from the engine of
  -- the last successful scan or change, whichever is later, failed scans or not. The connection gauge
  -- tells how the last scan went, and the timestamp is that of the last successful scan.
  pub export-Follows :
      (events : List (Event F)) → Follows (shown events nothing_shown) (export events new_exporter)
  unfolding Follows
  export-Follows events = export-from events nothing_shown new_exporter ((refl, refl), refl, refl)
