-- ===== src/IntelliCenter/Engine/Session.antt =====
-- `session`, `pollLoop` and `pushLoop` of engine.go, each loop by itself. A session starts with a baseline; then
-- a poll loop and a push loop run side by side over two sockets, and whichever ends first ends the
-- session. The loops take the number of ticks or messages before the context is cancelled.
use pentameter.Prelude.{ℕ, zero, suc, ◌+◌, leb, if◌then◌else◌}
use pentameter.Prelude.Float.{Floats}
use pentameter.IntelliCenter.Json.{Fields}
use pentameter.IntelliCenter.Result.{Result, ok, err, baseline, poll, push_stream}
use pentameter.IntelliCenter.Client.{Client, read_message}
use pentameter.IntelliCenter.Engine.{Engine}
use pentameter.IntelliCenter.Engine.Scan.{scan, scan_pump_circuits}
use pentameter.IntelliCenter.Engine.Push.{handle_push}
use pentameter.IntelliCenter.Engine.Config.{load_config}

abbrev pub max_consecutive_poll_failures : ℕ
max_consecutive_poll_failures = 3

abbrev pub config_refresh_polls : ℕ
config_refresh_polls = 60

module _ {S : Type 0} (attempt : S → Result (Unit {0}) × S) (refresh : S → S) where
  -- `pollLoop` from a state of its two counters: a tick scans; three failures in a row end the
  -- loop; every sixtieth success reloads the static config.
  unfoldable pub poll_loop : ℕ → ℕ → ℕ → S → Result (Unit {0}) × S
  poll_loop zero since failures s = (ok tt, s)
  poll_loop (suc ticks) since failures s =
      let (result, s') = attempt s in
      elim result [
        | err e ↦
            let further = poll_loop ticks since (failures + 1) s' in
            if leb max_consecutive_poll_failures (failures + 1) then (err (poll e), s') else further
        | ok _ ↦
            let reloaded = poll_loop ticks 0 0 (refresh s') in
            let further = poll_loop ticks (since + 1) 0 s' in
            if leb config_refresh_polls (since + 1) then reloaded else further
      ]

module _ {F : Type 0} ⦃fl : Floats F⦄ where
  -- One scan over the request client.
  unfoldable pub poll_once : Client × Engine F → Result (Unit {0}) × (Client × Engine F)
  poll_once (c, e) = let (result, c', e') = scan c e in (result, (c', e'))

  -- The static config: the features' flags, then the links of circuits and pumps.
  unfoldable pub load_static : Client × Engine F → Client × Engine F
  load_static (c, e) = let (c', e') = load_config c e in scan_pump_circuits c' e'

  unfoldable pub engine_poll_loop : ℕ → Client × Engine F → Result (Unit {0}) × (Client × Engine F)
  unfolding poll_loop poll_once load_static
  engine_poll_loop ticks = poll_loop poll_once load_static ticks 0 0

  baseline_of : Result (Unit {0}) × (Client × Engine F) → Result (Unit {0}) × (Client × Engine F)
  baseline_of (err e, s) = (err (baseline e), s)
  baseline_of (ok _, s) = (ok tt, load_static s)

  -- The beginning of `session`: a scan that must succeed, and the static config.
  unfoldable pub start_session : Client × Engine F → Result (Unit {0}) × (Client × Engine F)
  unfolding baseline_of poll_once load_static
  start_session s = baseline_of (poll_once s)

  pushed : Result Fields → Engine F → Result (Engine F)
  pushed (ok msg) e = ok (handle_push msg e)
  pushed (err failure) e = err (push_stream failure)

  -- `pushLoop`: each message is applied; an error of the socket ends the loop.
  unfoldable pub push_loop : ℕ → Client → Engine F → Result (Unit {0}) × Client × Engine F
  unfolding pushed
  push_loop zero c e = (ok tt, c, e)
  push_loop (suc messages) c e =
      let (msg, c') = read_message c in
      elim (pushed msg e) [ err failure ↦ (err failure, c', e) | ok e' ↦ push_loop messages c' e' ]
