-- ===== src/IntelliCenter/Engine/Running/Safe.antt =====
-- What `Run` of engine.go keeps, whatever the network and the hooks do.
use pentameter.Prelude.{
  ℕ, ◌+◌, String, Bool, false, Option, none, some, List, [], ◌∷◌, map, ◌≡◌, refl, subst, ap, All,
  if_elim, leb,
}
use pentameter.Prelude.Float.{Floats}
use pentameter.IntelliCenter.Json.{Fields}
use pentameter.IntelliCenter.Engine.Running.Natural.{going}
use pentameter.IntelliCenter.Engine.Running.Down.{IsDown, engine_steps-IsDown}
use pentameter.IntelliCenter.Result.{Error, Result, ok, err}
use pentameter.IntelliCenter.Client.{Client, close, read_message}
use pentameter.IntelliCenter.Engine.{Engine, Change}
use pentameter.IntelliCenter.Engine.Mirror.{IsValid}
use pentameter.IntelliCenter.Engine.Reach.{
  Reach, Reach-IsValid, Received, first, later, next, pushed, refreshed, received,
}
use pentameter.IntelliCenter.Engine.Live.{poll_once-Reach, load_static-Reach, start_session-Reach}
use pentameter.IntelliCenter.Engine.Session.{start_session}
use pentameter.IntelliCenter.Engine.Rounds.{run_round, engine_reconnect}
use pentameter.IntelliCenter.Engine.Rounds.Kept.{Keeps, run_round-keeps, run-keeps}
use pentameter.IntelliCenter.Engine.Running.{
  Hooks, Turn, tick, message, write, refresh, receive, late, Counters, Round, Running, take_first,
  over_req, hear_scan, hear_poll, hear_push, hear_taken, hear_change, attempt, reload, take_message,
  take_out, writing, refreshing, start_loops, outlive, polled_on, poll_tick, late_left, late_at,
  late_tick, ticked, own_tick, push_message, turn, linger, session_loop, session, begin,
  resolve_host, set_req_client, engine_steps, run_engine,
}

module _ {F : Type 0} where
  -- What `take_first` takes, a receive takes.
  take_first-Received :
      (i : ℕ) (qs rs : List (List (Change F))) (c : Change F)
      → take_first i qs ≡ (some c, rs)
      → Received qs rs
  unfolding take_first
  take_first-Received i [] rs c h = cc
  take_first-Received ℕ.zero ([] ∷ qs) rs c h = cc
  take_first-Received ℕ.zero ((a ∷ q) ∷ qs) rs c h =
      subst (Received ((a ∷ q) ∷ qs)) (ap (λ p. p.1) h) first
  take_first-Received (ℕ.suc i) (q ∷ qs) rs c h = subst (Received (q ∷ qs)) (ap (λ p. p.1) h) (
      later
        (take_first-Received i qs (take_first i qs).1 c (ap (λ p. (p.0, (take_first i qs).1)) h)))

module _ {F : Type 0} ⦃fl : Floats F⦄ {H : Type 0} (hooks : Hooks F H) where
  abbrev IsReached : Running F H → Type 0
  IsReached r = Reach r.engine

  attempt-Reach : (r : Running F H) → IsReached r → IsReached (attempt hooks r).1
  unfolding attempt hear_scan
  attempt-Reach r h = poll_once-Reach (r.req, r.engine) h

  reload-Reach : (r : Running F H) → IsReached r → IsReached (reload hooks r)
  unfolding reload
  reload-Reach r h = load_static-Reach (r.req, r.engine) h

  hear_poll-Reach :
      (baseline : Bool) (r : Running F H) → IsReached r → IsReached (hear_poll hooks baseline r)
  unfolding hear_poll
  hear_poll-Reach baseline r h = h

  take_message-Reach :
      (msg : Fields) (r : Running F H) → IsReached r → IsReached (take_message hooks msg r)
  unfolding take_message hear_push
  take_message-Reach msg r h = next h (pushed msg)

  over_req-Reach :
      (f : Client × Engine F → Client × Engine F) (r : Running F H)
      → (Reach r.engine → Reach (f (r.req, r.engine)).1)
      → IsReached r
      → IsReached (over_req f r)
  unfolding over_req
  over_req-Reach f r keeps h = if_elim IsReached r.is_live (keeps h) h

  hear_taken-Reach :
      (i : ℕ) (found : Option (Change F) × List (List (Change F))) (r : Running F H)
      → take_first i r.engine.subs ≡ found
      → IsReached r
      → IsReached (hear_taken hooks i found r)
  unfolding hear_taken
  hear_taken-Reach i (none, qs) r taken h = h
  hear_taken-Reach i (some c, qs) r taken h =
      next h (received qs (take_first-Received i r.engine.subs qs c taken))

  hear_change-Reach : (i : ℕ) (r : Running F H) → IsReached r → IsReached (hear_change hooks i r)
  unfolding hear_change
  hear_change-Reach i r h = hear_taken-Reach i (take_first i r.engine.subs) r refl h

  polled_on-Reach :
      (counters : Counters) (p : Result (Unit {0}) × Running F H)
      → IsReached p.1
      → IsReached (polled_on hooks counters p).1
  unfolding polled_on
  polled_on-Reach (since, failures) (err e, r) h = h
  polled_on-Reach (since, failures) (ok u, r) h =
      let polled = hear_poll-Reach false r h in
      if_elim (λ (x : Result Counters × Running F H). IsReached x.1) (leb 60 (since + 1))
        (reload-Reach (hear_poll hooks false r) polled) polled

  poll_tick-Reach :
      (counters : Counters) (r : Running F H)
      → IsReached r
      → IsReached (poll_tick hooks counters r).1
  unfolding poll_tick
  poll_tick-Reach counters r h = polled_on-Reach counters (attempt hooks r) (attempt-Reach r h)

  late_left-Reach :
      (r : Running F H) (rest : List (Client × Counters)) (p : Result Counters × Running F H)
      → IsReached p.1
      → IsReached (late_left hooks r rest p)
  unfolding late_left
  late_left-Reach r rest (ok counters, t) h = h
  late_left-Reach r rest (err e, t) h = h

  late_at-Reach :
      (p : Option (Client × Counters) × List (Client × Counters)) (r : Running F H)
      → IsReached r
      → IsReached (late_at hooks p r)
  unfolding late_at
  late_at-Reach (none, rest) r h = h
  late_at-Reach (some (c, counters), rest) r h =
      late_left-Reach r rest _ (poll_tick-Reach counters (record r { req = c }) h)

  ticked-Reach : (p : Result Counters × Running F H) → IsReached p.1 → IsReached (ticked hooks p).1
  unfolding ticked
  ticked-Reach (ok counters, r) h = h
  ticked-Reach (err e, r) h = h

  own_tick-Reach :
      (o : Option Counters) (r : Running F H) → IsReached r → IsReached (own_tick hooks o r).1
  unfolding own_tick
  own_tick-Reach none r h = h
  own_tick-Reach (some counters) r h =
      ticked-Reach (poll_tick hooks counters r) (poll_tick-Reach counters r h)

  push_message-Reach :
      (p : Result Fields × Client) (r : Running F H)
      → IsReached r
      → IsReached (push_message hooks p r).1
  unfolding push_message
  push_message-Reach (err e, c) r h = h
  push_message-Reach (ok m, c) r h = take_message-Reach m (record r { push = c }) h

  turn-Reach : (t : Turn) (r : Running F H) → IsReached r → IsReached (turn hooks t r).1
  unfolding turn late_tick
  turn-Reach tick r h = own_tick-Reach r.poller r h
  turn-Reach message r h =
      if_elim (λ (x : Option Error × Running F H). IsReached x.1) r.is_pushing
        (push_message-Reach (read_message r.push) r h) h
  turn-Reach (write objnam params) r h = over_req-Reach (writing objnam params) r (λ k. k) h
  turn-Reach (refresh id) r h =
      over_req-Reach (refreshing id) r (λ k. next k (refreshed id r.req)) h
  turn-Reach (receive i) r h = hear_change-Reach i r h
  turn-Reach (late i) r h = late_at-Reach (take_out i r.strays) r h

  linger-Reach :
      (turns : List Turn) (r : Running F H) → IsReached r → IsReached (linger hooks turns r)
  unfolding linger
  linger-Reach [] r h = h
  linger-Reach (t ∷ turns) r h = linger-Reach turns _ (turn-Reach t r h)

  going-Reach :
      (turns : List Turn)
      → ((r : Running F H) → IsReached r → IsReached (session_loop hooks turns r).1)
      → (p : Option Error × Running F H) → IsReached p.1
      → IsReached (going hooks turns p).1
  going-Reach turns further (none, r) h = further r h
  going-Reach turns further (some e, r) h = linger-Reach turns r h

  session_loop-Reach :
      (turns : List Turn) (r : Running F H) → IsReached r → IsReached (session_loop hooks turns r).1
  unfolding session_loop
  session_loop-Reach [] r h = h
  session_loop-Reach (t ∷ turns) r h =
      going-Reach turns (session_loop-Reach turns) (turn hooks t r) (turn-Reach t r h)

  begin-Reach :
      (turns : List Turn) (started : Result (Unit {0}) × (Client × Engine F)) (r : Running F H)
      → Reach started.1.1
      → IsReached (begin hooks turns started r).1
  unfolding begin hear_scan hear_poll set_req_client start_loops
  begin-Reach turns (err e, (c, e')) r h = h
  begin-Reach turns (ok _, (c, e')) r h = session_loop-Reach turns _ h

  session-Reach :
      (turns : List Turn) (r : Running F H) → IsReached r → IsReached (session hooks turns r).1
  unfolding session
  session-Reach turns r h =
      begin-Reach turns (start_session (r.req, r.engine)) r
        (start_session-Reach (r.req, r.engine) h)

  resolve_host-Reach :
      (found : Result String) (r : Running F H) → IsReached r → IsReached (resolve_host found r).1
  unfolding resolve_host
  resolve_host-Reach (ok host) r h = h
  resolve_host-Reach (err e) r h = h

  outlive-Reach : (o : Option Counters) (r : Running F H) → IsReached r → IsReached (outlive o r)
  unfolding outlive
  outlive-Reach none r h = h
  outlive-Reach (some counters) r h = h

  engine_steps-Reach : (w : Round) → Keeps (engine_steps hooks w) IsReached
  unfolding engine_steps hear_scan set_req_client
  engine_steps-Reach w = record {
    resolves = λ r h. resolve_host-Reach w.resolved _ (linger-Reach w.before r h);
    connects_req = λ r h. h;
    connects_push = λ r h. h;
    lives = session-Reach w.turns;
    hears = λ e r h. linger-Reach w.closing (hear_scan hooks (err e) r) h;
    closes_req = λ r h. outlive-Reach r.poller (record r { req = close r.req }) h;
    closes_push = λ r h. h;
    drops = λ r h. h;
  }

  each_round-keeps :
      (rounds : List Round)
      → All
          (λ steps.
            (r : Running F H)
            → IsReached r × IsDown hooks r
            → IsReached (run_round steps r) × IsDown hooks (run_round steps r))
          (map (engine_steps hooks) rounds)
  each_round-keeps [] = tt
  each_round-keeps (w ∷ rounds) = (
    λ r (h, down). (
      run_round-keeps (engine_steps hooks w) IsReached (engine_steps-Reach w) r h,
      engine_steps-IsDown hooks w r down,
    ),
    each_round-keeps rounds,
  )

  -- `Run`, begun with an engine that was reached from a new one, with no connection and with no loop
  -- of a session, over any rounds: whatever Resolve, the dials, the sockets and the hooks do, and in
  -- whatever order ticks, messages, writes, refreshes and receives come, it ends with an engine whose
  -- snapshot and queues are valid, with both connections closed, without a request client, and with
  -- no loop but the poll loops that have outlived their sessions.
  pub run_engine-IsValid :
      (rounds : List Round) (r : Running F H)
      → Reach r.engine
      → IsDown hooks r
      → IsValid (run_engine hooks rounds r).engine × IsDown hooks (run_engine hooks rounds r)
  unfolding run_engine
  run_engine-IsValid rounds r h down =
      let (reached, ends) =
        run-keeps (λ (t : Running F H). IsReached t × IsDown hooks t)
          (map (engine_steps hooks) rounds) (each_round-keeps rounds) engine_reconnect r
          (h, down) in
      (Reach-IsValid reached, ends)
