-- ===== src/IntelliCenter/Engine/Running/Grammar.antt =====
-- In which order whole turns call the hooks: the log is a sentence of a grammar, in which OnRawPoll
-- comes only after an OnScan without an error.
use mathlib.Core.List.{append_assoc}
use pentameter.Prelude.{
  ℕ, ◌+◌, String, Bool, true, false, Option, none, some, List, [], ◌∷◌, ◌++◌, map, sym, subst, leb,
  if_elim, All,
}
use pentameter.Prelude.Float.{Floats}
use pentameter.IntelliCenter.Json.{Fields}
use pentameter.IntelliCenter.Result.{Error, Result, ok, err}
use pentameter.IntelliCenter.Client.{Client, close, read_message}
use pentameter.IntelliCenter.Engine.{Engine, Change}
use pentameter.IntelliCenter.Engine.Session.{poll_once, start_session}
use pentameter.IntelliCenter.Engine.Rounds.{run_round, engine_reconnect}
use pentameter.IntelliCenter.Engine.Rounds.Kept.{Keeps, run_round-keeps, run-keeps}
use pentameter.IntelliCenter.Engine.Running.{
  Turn, tick, message, write, refresh, receive, late, Counters, Round, Running, take_first,
  take_out, over_req, writing, refreshing, hear_scan, hear_poll, hear_push, hear_taken, hear_change,
  attempt, reload, take_message, start_loops, outlive, polled_on, poll_tick, late_left, late_at,
  late_tick, ticked, own_tick, push_message, turn, linger, session_loop, begin, session,
  resolve_host, set_req_client, engine_steps, run_engine,
}
use pentameter.IntelliCenter.Engine.Running.Natural.{Call, scanned, polled, pushed, changed, going}
use pentameter.IntelliCenter.Engine.Running.Log.{log_hooks}

module _ {F : Type 0} where
  pub data IsPaired : List (Call F) → Type 0 where
    silent : IsPaired []
    missed :
        {x : Error} {e : Engine F} {calls : List (Call F)}
        → IsPaired calls
        → IsPaired (scanned (err x) e ∷ calls)
    answered :
        {baseline : Bool} {e : Engine F} {calls : List (Call F)}
        → IsPaired calls
        → IsPaired (scanned (ok tt) e ∷ polled baseline e ∷ calls)
    heard_push :
        {msg : Fields} {e : Engine F} {calls : List (Call F)}
        → IsPaired calls
        → IsPaired (pushed msg e ∷ calls)
    received :
        {i : ℕ} {c : Change F} {e : Engine F} {calls : List (Call F)}
        → IsPaired calls
        → IsPaired (changed i c e ∷ calls)

  append-IsPaired :
      {calls more : List (Call F)} → IsPaired calls → IsPaired more → IsPaired (calls ++ more)
  append-IsPaired silent h = h
  append-IsPaired (missed p) h = missed (append-IsPaired p h)
  append-IsPaired (answered p) h = answered (append-IsPaired p h)
  append-IsPaired (heard_push p) h = heard_push (append-IsPaired p h)
  append-IsPaired (received p) h = received (append-IsPaired p h)

  -- What has been heard is paired.
  Paired : Running F (List (Call F)) → Type 0
  Paired r = IsPaired r.heard

module _ {F : Type 0} ⦃fl : Floats F⦄ where
  hear_miss :
      (x : Error) (r : Running F (List (Call F)))
      → Paired r
      → Paired (hear_scan log_hooks (err x) r)
  unfolding Paired hear_scan
  hear_miss x r h = append-IsPaired h (missed silent)

  -- A successful scan, and its OnRawPoll.
  hear_answer :
      (baseline : Bool) (r : Running F (List (Call F)))
      → Paired r
      → Paired (hear_poll log_hooks baseline (hear_scan log_hooks (ok tt) r))
  unfolding Paired hear_poll hear_scan
  hear_answer baseline r h =
      subst IsPaired (sym (append_assoc r.heard (scanned (ok tt) r.engine ∷ []) _))
        (append-IsPaired h (answered silent))

  tick_on :
      (counters : Counters) (result : Result (Unit {0})) (t : Running F (List (Call F)))
      → Paired t
      → Paired (polled_on log_hooks counters (result, hear_scan log_hooks result t)).1
  unfolding polled_on reload Paired hear_scan hear_poll
  tick_on (since, failures) (err x) t h = hear_miss x t h
  tick_on (since, failures) (ok u) t h =
      if_elim (λ (x : Result Counters × Running F (List (Call F))). Paired x.1) (leb 60 (since + 1))
        (hear_answer false t h) (hear_answer false t h)

  poll_tick-Paired :
      (counters : Counters) (r : Running F (List (Call F)))
      → Paired r
      → Paired (poll_tick log_hooks counters r).1
  unfolding poll_tick attempt Paired
  poll_tick-Paired counters r h =
      let (result, (c, e)) = poll_once (r.req, r.engine) in
      tick_on counters result (record r { req = c; engine = e }) h

  late_left-Paired :
      (r : Running F (List (Call F))) (rest : List (Client × Counters))
      (p : Result Counters × Running F (List (Call F)))
      → Paired p.1
      → Paired (late_left log_hooks r rest p)
  unfolding late_left Paired
  late_left-Paired r rest (ok counters, t) h = h
  late_left-Paired r rest (err e, t) h = h

  late_at-Paired :
      (p : Option (Client × Counters) × List (Client × Counters)) (r : Running F (List (Call F)))
      → Paired r
      → Paired (late_at log_hooks p r)
  unfolding late_at Paired
  late_at-Paired (none, rest) r h = h
  late_at-Paired (some (c, counters), rest) r h =
      late_left-Paired r rest (poll_tick log_hooks counters (record r { req = c }))
        (poll_tick-Paired counters (record r { req = c }) h)

  ticked-Paired :
      (p : Result Counters × Running F (List (Call F))) → Paired p.1 → Paired (ticked log_hooks p).1
  unfolding ticked Paired
  ticked-Paired (ok counters, r) h = h
  ticked-Paired (err e, r) h = h

  own_tick-Paired :
      (o : Option Counters) (r : Running F (List (Call F)))
      → Paired r
      → Paired (own_tick log_hooks o r).1
  unfolding own_tick
  own_tick-Paired none r h = h
  own_tick-Paired (some counters) r h =
      ticked-Paired (poll_tick log_hooks counters r) (poll_tick-Paired counters r h)

  push_message-Paired :
      (p : Result Fields × Client) (r : Running F (List (Call F)))
      → Paired r
      → Paired (push_message log_hooks p r).1
  unfolding push_message take_message hear_push Paired
  push_message-Paired (err e, c) r h = h
  push_message-Paired (ok m, c) r h = append-IsPaired h (heard_push silent)

  over_req-Paired :
      (g : Client × Engine F → Client × Engine F) (r : Running F (List (Call F)))
      → Paired r
      → Paired (over_req g r)
  unfolding over_req Paired
  over_req-Paired g r h =
      if_elim (λ (t : Running F (List (Call F))). IsPaired t.heard) r.is_live h h

  hear_taken-Paired :
      (i : ℕ) (found : Option (Change F) × List (List (Change F))) (r : Running F (List (Call F)))
      → Paired r
      → Paired (hear_taken log_hooks i found r)
  unfolding hear_taken Paired
  hear_taken-Paired i (none, qs) r h = h
  hear_taken-Paired i (some c, qs) r h = append-IsPaired h (received silent)

  turn-Paired :
      (t : Turn) (r : Running F (List (Call F))) → Paired r → Paired (turn log_hooks t r).1
  unfolding turn late_tick hear_change
  turn-Paired tick r h = own_tick-Paired r.poller r h
  turn-Paired message r h =
      if_elim (λ (x : Option Error × Running F (List (Call F))). Paired x.1) r.is_pushing
        (push_message-Paired (read_message r.push) r h) h
  turn-Paired (write objnam params) r h = over_req-Paired (writing objnam params) r h
  turn-Paired (refresh id) r h = over_req-Paired (refreshing id) r h
  turn-Paired (receive i) r h = hear_taken-Paired i (take_first i r.engine.subs) r h
  turn-Paired (late i) r h = late_at-Paired (take_out i r.strays) r h

  linger-Paired :
      (turns : List Turn) (r : Running F (List (Call F)))
      → Paired r
      → Paired (linger log_hooks turns r)
  unfolding linger
  linger-Paired [] r h = h
  linger-Paired (t ∷ turns) r h = linger-Paired turns (turn log_hooks t r).1 (turn-Paired t r h)

  going-Paired :
      (turns : List Turn)
      → ((r : Running F (List (Call F))) → Paired r → Paired (session_loop log_hooks turns r).1)
      → (p : Option Error × Running F (List (Call F))) → Paired p.1
      → Paired (going log_hooks turns p).1
  going-Paired turns further (none, r) h = further r h
  going-Paired turns further (some e, r) h = linger-Paired turns r h

  session_loop-Paired :
      (turns : List Turn) (r : Running F (List (Call F)))
      → Paired r
      → Paired (session_loop log_hooks turns r).1
  unfolding session_loop Paired
  session_loop-Paired [] r h = h
  session_loop-Paired (t ∷ turns) r h =
      going-Paired turns (session_loop-Paired turns) (turn log_hooks t r) (turn-Paired t r h)

  begin-Paired :
      (turns : List Turn) (started : Result (Unit {0}) × (Client × Engine F))
      (r : Running F (List (Call F)))
      → Paired r
      → Paired (begin log_hooks turns started r).1
  unfolding begin set_req_client start_loops Paired
  begin-Paired turns (err x, (c, e)) r h = h
  begin-Paired turns (ok u, (c, e)) r h =
      session_loop-Paired turns _
        (hear_answer true (record r { req = c; engine = e; is_live = true }) h)

  resolve_host-Paired :
      (found : Result String) (r : Running F (List (Call F)))
      → Paired r
      → Paired (resolve_host found r).1
  unfolding resolve_host Paired
  resolve_host-Paired (ok host) r h = h
  resolve_host-Paired (err e) r h = h

  outlive-Paired :
      (o : Option Counters) (r : Running F (List (Call F))) → Paired r → Paired (outlive o r)
  unfolding outlive Paired
  outlive-Paired none r h = h
  outlive-Paired (some counters) r h = h

  engine_steps-Paired : (w : Round) → Keeps (engine_steps {F = F} log_hooks w) Paired
  unfolding engine_steps set_req_client session Paired
  engine_steps-Paired w = record {
    resolves = λ r h.
        resolve_host-Paired w.resolved (linger log_hooks w.before r) (linger-Paired w.before r h);
    connects_req = λ r h. h;
    connects_push = λ r h. h;
    lives = λ r h. begin-Paired w.turns (start_session (r.req, r.engine)) r h;
    hears = λ e r h. linger-Paired w.closing (hear_scan log_hooks (err e) r) (hear_miss e r h);
    closes_req = λ r h. outlive-Paired r.poller (record r { req = close r.req }) h;
    closes_push = λ r h. h;
    drops = λ r h. h;
  }

each_round-keeps :
    (F : Type 0) ⦃fl : Floats F⦄ (rounds : List Round)
    → All
        (λ steps. (r : Running F (List (Call F))) → Paired r → Paired (run_round steps r))
        (map (engine_steps {F = F} log_hooks) rounds)
each_round-keeps F [] = tt
each_round-keeps F (w ∷ rounds) = (
  λ r h. run_round-keeps (engine_steps log_hooks w) Paired (engine_steps-Paired w) r h,
  each_round-keeps F rounds,
)

module _ {F : Type 0} ⦃fl : Floats F⦄ where
  -- Over any rounds, `Run` calls OnRawPoll exactly after each OnScan without an error, with the same
  -- engine, where a turn is not interrupted by another.
  pub run_engine-IsPaired :
      (rounds : List Round) (r : Running F (List (Call F)))
      → IsPaired r.heard
      → IsPaired (run_engine log_hooks rounds r).heard
  unfolding run_engine Paired
  run_engine-IsPaired rounds r h =
      run-keeps Paired (map (engine_steps log_hooks) rounds) (each_round-keeps F rounds)
        engine_reconnect r h
