-- ===== src/IntelliCenter/Engine/Running.antt =====
-- `Run`, `session`, `resolveHost`, `setReqClient` and the hooks of engine.go, together. The goroutines
-- are interleaved: a list of turns says whose turn it is. A turn is a whole tick of a poll loop, or
-- one message of the push loop; between them other goroutines write over the request client, refresh
-- a body, or receive a change. The loop that does not end the session goes on: the push loop until
-- its socket is closed, the poll loop over the closed client until its third failure in a row.
pub mod Safe
pub mod Down
pub mod Natural
pub mod Log
pub mod Grammar
pub mod Late
use pentameter.Prelude.{
  ℕ, ◌+◌, String, Bool, true, false, Option, none, some, List, [], ◌∷◌, map, leb, if◌then◌else◌,
  ◌||◌,
}
use pentameter.Prelude.Map.{Map}
use pentameter.Prelude.Float.{Floats}
use pentameter.IntelliCenter.Json.{Fields}
use pentameter.IntelliCenter.Result.{Error, Result, ok, err, canceled, poll, push_stream}
use pentameter.IntelliCenter.Client.{Conn, Client, close, read_message}
use pentameter.IntelliCenter.Client.Retry.{Dial, default_retry, connect_with_retry}
use pentameter.IntelliCenter.Control.{set_params}
use pentameter.IntelliCenter.Engine.{Engine, Change}
use pentameter.IntelliCenter.Engine.Scan.{refresh_body}
use pentameter.IntelliCenter.Engine.Push.{handle_push}
use pentameter.IntelliCenter.Engine.Session.{
  max_consecutive_poll_failures, config_refresh_polls, poll_once, load_static, start_session,
}
use pentameter.IntelliCenter.Engine.Rounds.{RunSteps, run, engine_reconnect}

-- The hooks OnScan, OnRawPoll and OnRawPush, and what the receivers of the subscriptions do with a
-- change, over the state `H` of the engine's user. A hook finds the engine as it then is. A hook that
-- is nil changes nothing.
pub record Hooks (F : Type 0) (H : Type 0) : Type 0 where
  pub on_scan : Result (Unit {0}) → Engine F → H → H
  pub on_raw_poll : Bool → Engine F → Client × H → Client × H
  pub on_raw_push : Fields → Engine F → H → H
  -- the number of the subscriber, and the change that it receives
  pub on_change : ℕ → Change F → Engine F → H → H

pub data Turn : Type 0 where
  tick message : Turn
  -- a write of `control.go` to an object, and `RefreshBody`, by another goroutine
  write : String → Map String → Turn
  refresh : String → Turn
  -- a subscriber receives its oldest change
  receive : ℕ → Turn
  -- a tick of a poll loop of an earlier session
  late : ℕ → Turn

-- What one round of `Run` meets: the answer of Resolve, the outcomes of the dials, the connections
-- that these give, the turns before these, those of the session until the context is cancelled, which
-- after the end of one loop are those of the other, and those between OnScan and the closing.
pub record Round : Type 0 where
  pub before : List Turn
  pub resolved : Result String
  pub req_dials : List Dial
  pub push_dials : List Dial
  pub req_conn : Conn
  pub push_conn : Conn
  pub clock : ℕ → ℕ × ℕ
  pub turns : List Turn
  pub closing : List Turn

-- A poll loop: its counters of the polls since the last reload and of the failures in a row.
abbrev pub Counters : Type 0
Counters = ℕ × ℕ

pub record Running (F : Type 0) (H : Type 0) : Type 0 where
  pub engine : Engine F
  pub host : String
  pub req : Client
  pub push : Client
  -- whether `reqClient` is `req`; otherwise it is nil
  pub is_live : Bool
  pub is_canceled : Bool
  -- the loops of the session, while they run
  pub poller : Option Counters
  pub is_pushing : Bool
  -- the poll loops of earlier sessions, with their clients
  pub strays : List (Client × Counters)
  pub heard : H

abbrev pub no_client : Client
no_client = record { conn = none; seq = 0; clock = λ n. (0, 0) }

-- An engine before `Run`, for a user in some state. (The host is the configured one, which no dial
-- of the model depends on.)
unfoldable pub before_run : {F H : Type 0} → Engine F → H → Running F H
before_run e h = record {
  engine = e;
  host = "";
  req = no_client;
  push = no_client;
  is_live = false;
  is_canceled = false;
  poller = none;
  is_pushing = false;
  strays = [];
  heard = h;
}

abbrev pub is_cancel : Result (Unit {0}) → Bool
is_cancel (err canceled) = true
is_cancel r = false

-- The connection of a client for which `ConnectWithRetry` returned that result.
abbrev pub dialed : Result (Unit {0}) → Conn → Option Conn
dialed (ok _) k = some k
dialed (err e) k = none

-- `New` and `ConnectWithRetry`
unfoldable pub connect : List Dial → Conn → (ℕ → ℕ × ℕ) → Result (Unit {0}) × Client
unfolding connect_with_retry
connect dials k clock =
    let result = (connect_with_retry default_retry dials).1 in
    (result, record { conn = dialed result k; seq = 0; clock = clock })

module _ {A : Type 0} where
  -- Take the first element of the `i`-th queue.
  unfoldable pub take_first : ℕ → List (List A) → Option A × List (List A)
  take_first i [] = (none, [])
  take_first ℕ.zero ([] ∷ qs) = (none, [] ∷ qs)
  take_first ℕ.zero ((a ∷ q) ∷ qs) = (some a, q ∷ qs)
  take_first (ℕ.suc i) (q ∷ qs) = let (found, rs) = take_first i qs in (found, q ∷ rs)

module _ {A : Type 0} where
  -- The `i`-th element, and the others.
  unfoldable pub take_out : ℕ → List A → Option A × List A
  take_out i [] = (none, [])
  take_out ℕ.zero (a ∷ as') = (some a, as')
  take_out (ℕ.suc i) (a ∷ as') = let (found, rest) = take_out i as' in (found, a ∷ rest)

module _ {F : Type 0} {H : Type 0} where
  -- The start of the loops of a session.
  unfoldable pub start_loops : Running F H → Running F H
  start_loops r = record r { poller = some (0, 0); is_pushing = true }

  -- A poll loop that still runs when its client is closed.
  unfoldable pub outlive : Option Counters → Running F H → Running F H
  outlive none r = r
  outlive (some counters) r = record r { poller = none; strays = (r.req, counters) ∷ r.strays }

  -- `Engine.withReqClient` of a call that may change the engine.
  unfoldable pub over_req : (Client × Engine F → Client × Engine F) → Running F H → Running F H
  over_req f r =
      let (c, e) = f (r.req, r.engine) in if r.is_live then record r { req = c; engine = e } else r

  -- `setReqClient`
  unfoldable pub set_req_client : Bool → Running F H → Running F H
  set_req_client live r = record r { is_live = live }

  -- `resolveHost`; without a Resolve hook the host is kept, as if Resolve answered with it.
  unfoldable pub resolve_host : Result String → Running F H → Result (Unit {0}) × Running F H
  resolve_host (err e) r = (err e, r)
  resolve_host (ok host) r = (ok tt, record r { host = host })

module _ {F : Type 0} {H : Type 0} (hooks : Hooks F H) where
  unfoldable pub hear_scan : Result (Unit {0}) → Running F H → Running F H
  hear_scan result r = record r { heard = hooks.on_scan result r.engine r.heard }

  unfoldable pub hear_poll : Bool → Running F H → Running F H
  hear_poll baseline r =
      let (c, h) = hooks.on_raw_poll baseline r.engine (r.req, r.heard) in
      record r { req = c; heard = h }

  unfoldable pub hear_push : Fields → Running F H → Running F H
  hear_push msg r = record r { heard = hooks.on_raw_push msg r.engine r.heard }

  hear_taken : ℕ → Option (Change F) × List (List (Change F)) → Running F H → Running F H
  hear_taken i (none, qs) r = r
  hear_taken i (some c, qs) r = record r {
    engine = record r.engine { subs = qs };
    heard = hooks.on_change i c (record r.engine { subs = qs }) r.heard;
  }

  -- A subscriber receives a change, if one waits.
  unfoldable pub hear_change : ℕ → Running F H → Running F H
  unfolding hear_taken take_first
  hear_change i r = hear_taken i (take_first i r.engine.subs) r

module _ {F : Type 0} ⦃fl : Floats F⦄ where
  -- What another goroutine does with the request client.
  abbrev pub writing : String → Map String → Client × Engine F → Client × Engine F
  writing objnam params (c, e) = ((set_params objnam params c).1, e)

  abbrev pub refreshing : String → Client × Engine F → Client × Engine F
  refreshing id (c, e) = let (result, c', e') = refresh_body id c e in (c', e')

module _ {F : Type 0} {H : Type 0} ⦃fl : Floats F⦄ (hooks : Hooks F H) where
  -- A tick's scan, with OnScan.
  unfoldable pub attempt : Running F H → Result (Unit {0}) × Running F H
  attempt r =
      let (result, (c, e)) = poll_once (r.req, r.engine) in
      (result, hear_scan hooks result (record r { req = c; engine = e }))

  -- The reload of the static config.
  unfoldable pub reload : Running F H → Running F H
  reload r = let (c, e) = load_static (r.req, r.engine) in record r { req = c; engine = e }

  -- A message of the push loop: the hook, then the engine.
  unfoldable pub take_message : Fields → Running F H → Running F H
  take_message msg r =
      let r' = hear_push hooks msg r in record r' { engine = handle_push msg r'.engine }

  polled_on : Counters → Result (Unit {0}) × Running F H → Result Counters × Running F H
  unfolding reload
  polled_on (since, failures) (err e, r) = (
    if leb max_consecutive_poll_failures (failures + 1)
        then err (poll e)
        else ok (since, failures + 1),
    r,
  )
  polled_on (since, failures) (ok _, r) =
      let r' = hear_poll hooks false r in
      if leb config_refresh_polls (since + 1)
      then (ok (0, 0), reload r')
      else (ok (since + 1, 0), r')

  -- A tick of `pollLoop` over `req`: its counters afterwards, or the error that it returns.
  unfoldable pub poll_tick : Counters → Running F H → Result Counters × Running F H
  unfolding polled_on attempt
  poll_tick counters r = polled_on counters (attempt r)

  -- A poll loop that has outlived its session ticks over its own client, and is gone when it returns.
  late_left : Running F H → List (Client × Counters) → Result Counters × Running F H → Running F H
  late_left r rest (ok counters, t) = record t { req = r.req; strays = (t.req, counters) ∷ rest }
  late_left r rest (err e, t) = record t { req = r.req; strays = rest }

  late_at : Option (Client × Counters) × List (Client × Counters) → Running F H → Running F H
  unfolding late_left poll_tick
  late_at (none, rest) r = r
  late_at (some (c, counters), rest) r =
      late_left r rest (poll_tick counters (record r { req = c }))

  unfoldable pub late_tick : ℕ → Running F H → Running F H
  unfolding late_at take_out
  late_tick i r = late_at (take_out i r.strays) r

  ticked : Result Counters × Running F H → Option Error × Running F H
  ticked (ok counters, r) = (none, record r { poller = some counters })
  ticked (err e, r) = (some e, record r { poller = none })

  own_tick : Option Counters → Running F H → Option Error × Running F H
  unfolding ticked poll_tick
  own_tick none r = (none, r)
  own_tick (some counters) r = ticked (poll_tick counters r)

  -- A message of `pushLoop`, or the error that it returns.
  push_message : Result Fields × Client → Running F H → Option Error × Running F H
  unfolding take_message
  push_message (err e, c) r = (some (push_stream e), record r { push = c; is_pushing = false })
  push_message (ok m, c) r = (none, take_message m (record r { push = c }))

  -- A turn, with the error of the loop that it ends, if it ends one.
  unfoldable pub turn : Turn → Running F H → Option Error × Running F H
  unfolding own_tick push_message late_tick over_req hear_change
  turn tick r = own_tick r.poller r
  turn message r = if r.is_pushing then push_message (read_message r.push) r else (none, r)
  turn (write objnam params) r = (none, over_req (writing objnam params) r)
  turn (refresh id) r = (none, over_req (refreshing id) r)
  turn (receive i) r = (none, hear_change hooks i r)
  turn (late i) r = (none, late_tick i r)

  -- Turns of which nobody awaits the end of a loop.
  unfoldable pub linger : List Turn → Running F H → Running F H
  unfolding turn
  linger [] r = r
  linger (t ∷ turns) r = linger turns (turn t r).1

  -- The loops of a session: the first that returns an error ends it.
  unfoldable pub session_loop : List Turn → Running F H → Result (Unit {0}) × Running F H
  unfolding turn linger
  session_loop [] r = (ok tt, record r { is_canceled = true })
  session_loop (t ∷ turns) r =
      let (ended, r') = turn t r in
      let further = session_loop turns r' in
      elim ended [ none ↦ further | some e ↦ (err e, linger turns r') ]

  begin :
      List Turn
      → Result (Unit {0}) × (Client × Engine F)
      → Running F H
      → Result (Unit {0}) × Running F H
  unfolding session_loop start_loops
  begin turns (err e, (c, e')) r = (err e, record r { req = c; engine = e' })
  begin turns (ok _, (c, e')) r = session_loop turns (
      start_loops (
        hear_poll hooks true
          (hear_scan hooks (ok tt) (set_req_client true (record r { req = c; engine = e' })))))

  -- `Engine.session`
  unfoldable pub session : List Turn → Running F H → Result (Unit {0}) × Running F H
  unfolding begin start_session
  session turns r = begin turns (start_session (r.req, r.engine)) r

  -- The steps of a round of `Run`.
  unfoldable pub engine_steps : Round → RunSteps (Running F H)
  unfolding connect resolve_host hear_scan session set_req_client linger outlive
  engine_steps w = record {
    resolve = λ r. resolve_host w.resolved (linger w.before r);
    connect_req = λ r.
        let (result, c) = connect w.req_dials w.req_conn w.clock in
        (result, record r { req = c; is_canceled = r.is_canceled || is_cancel result });
    connect_push = λ r.
        let (result, c) = connect w.push_dials w.push_conn w.clock in
        (result, record r { push = c; is_canceled = r.is_canceled || is_cancel result });
    session = session w.turns;
    on_scan = λ e r. linger w.closing (hear_scan hooks (err e) r);
    close_req = λ r. outlive r.poller (record r { req = close r.req });
    close_push = λ r. record r { push = close r.push; is_pushing = false };
    drop_req = set_req_client false;
    canceled = λ r. r.is_canceled;
  }

  -- `Engine.Run`
  unfoldable pub run_engine : List Round → Running F H → Running F H
  unfolding run engine_steps
  run_engine rounds r = (run (map engine_steps rounds) engine_reconnect r).1
