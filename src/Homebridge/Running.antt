-- ===== src/Homebridge/Running.antt =====
-- `hbRun` of homebridge.go over the whole of `Run`: the sidecar is a user of the engine that only
-- listens. Its metrics subscribe first, if there are any, and then the forwarder of the changes.
pub mod Conn
pub mod Online
use pentameter.Prelude.{ℕ, ◌+◌, Bool, true, false, List, [], ◌∷◌, ◌++◌, eqb, if◌then◌else◌}
use pentameter.Prelude.Float.{Floats}
use pentameter.IntelliCenter.Result.{Result, ok, err}
use pentameter.IntelliCenter.Engine.{Engine, Change, subscribe, new_engine}
use pentameter.IntelliCenter.Engine.Running.{Hooks}
use pentameter.IntelliCenter.Engine.Running.Natural.{
  Call, scanned, polled, pushed, changed, listener,
}
use pentameter.Monitor.Exporter.{new_exporter}
use pentameter.Monitor.Exporter.Running.{Clocked, export_call}
use pentameter.Homebridge.Publish.{
  Message, Publisher, new_publisher, announce, resync, forward_change, ConnWatch, new_conn_watch,
  on_scan,
}

pub record Sidecar (F : Type 0) : Type 0 where
  pub publisher : Publisher
  pub conn : ConnWatch
  -- whether a port for the metrics is given, and what they show
  pub has_metrics : Bool
  pub metrics : Clocked F
  -- what was written to the shim, the oldest first
  pub sent : List (Message F)

abbrev pub new_sidecar : {F : Type 0} → Bool → Sidecar F
new_sidecar has_metrics = record {
  publisher = new_publisher;
  conn = new_conn_watch;
  has_metrics = has_metrics;
  metrics = (new_exporter, 0);
  sent = [];
}

abbrev pub succeeded : Result (Unit {0}) → Bool
succeeded (ok _) = true
succeeded (err _) = false

-- The engine with the subscriptions of `hbRun`.
unfoldable pub subscribed : {F : Type 0} → Bool → Engine F → Engine F
unfolding subscribe
subscribed has_metrics e = subscribe (if has_metrics then subscribe e else e)

module _ {F : Type 0} where
  -- The part of OnScan for the sensor of the connection.
  unfoldable pub report_scan : Bool → Sidecar F → Sidecar F
  unfolding on_scan
  report_scan connected s =
      let (messages, w) = on_scan connected s.publisher s.conn in
      record s { conn = w; sent = s.sent ++ messages }

module _ {F : Type 0} ⦃fl : Floats F⦄ where
  -- OnRawPoll: a baseline is announced, and any other poll is a resync.
  unfoldable pub report_poll : Bool → Engine F → Sidecar F → Sidecar F
  unfolding announce resync
  report_poll baseline e s =
      let (messages, p) =
        if baseline then announce e.snap s.publisher else resync e.snap s.publisher in
      record s { publisher = p; sent = s.sent ++ messages }

  -- `hbForwardChanges`
  unfoldable pub forward : Change F → Sidecar F → Sidecar F
  unfolding forward_change
  forward c s = record s { sent = s.sent ++ forward_change s.publisher c }

module _ {F : Type 0} ⦃fl : Floats F⦄ (clock : ℕ → ℕ) where
  -- `hbMetrics`, if there is one.
  unfoldable pub measure : Call F → Sidecar F → Sidecar F
  measure call s =
      if s.has_metrics then record s { metrics = export_call clock call s.metrics } else s

  -- A change is the metrics' or the shim's, by the subscription that it comes from.
  unfoldable pub shim_call : Call F → Sidecar F → Sidecar F
  unfolding measure report_scan report_poll forward
  shim_call (scanned result e) s = report_scan (succeeded result) (measure (scanned result e) s)
  shim_call (polled baseline e) s = report_poll baseline e s
  shim_call (pushed msg e) s = s
  shim_call (changed i c e) s =
      if eqb i (if s.has_metrics then 1 else 0) then forward c s else measure (changed i c e) s

  abbrev pub shim_hooks : Hooks F (Sidecar F)
  shim_hooks = listener shim_call
