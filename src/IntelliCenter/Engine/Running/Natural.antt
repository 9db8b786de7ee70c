-- ===== src/IntelliCenter/Engine/Running/Natural.antt =====
-- Users of the engine that only listen to it: their OnRawPoll leaves the request client alone. Such a
-- user is a function from what it hears to its next state, and `Run` treats two of them alike.
use pentameter.Prelude.{
  ℕ, ◌+◌, String, Bool, false, true, Option, none, some, List, [], ◌∷◌, ◌≡◌, refl, ap, ◌∙◌, if_map,
  leb,
}
use pentameter.Prelude.Float.{Floats}
use pentameter.IntelliCenter.Json.{Fields}
use pentameter.IntelliCenter.Result.{Error, Result, ok, err}
use pentameter.IntelliCenter.Client.{Client, close, read_message}
use pentameter.IntelliCenter.Engine.{Engine, Change}
use pentameter.IntelliCenter.Engine.Session.{start_session}
use pentameter.IntelliCenter.Engine.Rounds.{engine_reconnect}
use pentameter.IntelliCenter.Engine.Rounds.Agree.{over, Agrees, run-agrees}
use pentameter.IntelliCenter.Engine.Running.{
  Hooks, Turn, tick, message, write, refresh, receive, late, Counters, Round, Running, take_first,
  over_req, hear_scan, hear_poll, hear_push, hear_taken, hear_change, attempt, reload, take_message,
  writing, refreshing, take_out, start_loops, outlive, polled_on, poll_tick, late_left, late_at,
  late_tick, ticked, own_tick, push_message, turn, linger, session_loop, begin, session,
  resolve_host, set_req_client, engine_steps, run_engine,
}

-- What a user hears, with the engine as it then is.
pub data Call (F : Type 0) : Type 0 where
  scanned : Result (Unit {0}) → Engine F → Call F
  polled : Bool → Engine F → Call F
  pushed : Fields → Engine F → Call F
  changed : ℕ → Change F → Engine F → Call F

-- The hooks of such a user.
abbrev pub listener : {F H : Type 0} → (Call F → H → H) → Hooks F H
listener react = record {
  on_scan = λ result e. react (scanned result e);
  on_raw_poll = λ baseline e (c, h). (c, react (polled baseline e) h);
  on_raw_push = λ msg e. react (pushed msg e);
  on_change = λ i c e. react (changed i c e);
}

-- A state with another user, whose state is made of that of the first.
abbrev pub seen : {F H K : Type 0} → (H → K) → Running F H → Running F K
seen f r = record {
  engine = r.engine;
  host = r.host;
  req = r.req;
  push = r.push;
  is_live = r.is_live;
  is_canceled = r.is_canceled;
  poller = r.poller;
  is_pushing = r.is_pushing;
  strays = r.strays;
  heard = f r.heard;
}

-- One turn of the loops of a session, and the rest.
module _ {F H : Type 0} ⦃fl : Floats F⦄ (hooks : Hooks F H) where
  abbrev pub going : List Turn → Option Error × Running F H → Result (Unit {0}) × Running F H
  going turns p = elim p.0 [
    | none ↦ session_loop hooks turns p.1
    | some e ↦ (err e, linger hooks turns p.1)
  ]

module _ {F H K : Type 0} (f : H → K) where
  abbrev over_result : Result Counters × Running F H → Result Counters × Running F K
  over_result (result, r) = (result, seen f r)

  abbrev over_error : Option Error × Running F H → Option Error × Running F K
  over_error (ended, r) = (ended, seen f r)

module _ {F H K : Type 0} ⦃fl : Floats F⦄ (react : Call F → H → H) (react' : Call F → K → K)
    (f : H → K) (commutes : (call : Call F) (h : H) → f (react call h) ≡ react' call (f h)) where
  abbrev hs : Hooks F H
  hs = listener react

  abbrev ks : Hooks F K
  ks = listener react'

  abbrev with_heard : Running F H → K → Running F K
  with_heard r k = record (seen f r) { heard = k }

  attempt-seen : (r : Running F H) → over (seen f) (attempt hs r) ≡ attempt ks (seen f r)
  unfolding attempt hear_scan
  attempt-seen r = ap (λ k. ((attempt hs r).0, with_heard (attempt hs r).1 k)) (commutes _ _)

  hear_poll-seen :
      (baseline : Bool) (r : Running F H)
      → seen f (hear_poll hs baseline r) ≡ hear_poll ks baseline (seen f r)
  unfolding hear_poll
  hear_poll-seen baseline r = ap (with_heard r) (commutes _ _)

  reload-seen : (r : Running F H) → seen f (reload hs r) ≡ reload ks (seen f r)
  unfolding reload
  reload-seen r = refl

  take_message-seen :
      (msg : Fields) (r : Running F H)
      → seen f (take_message hs msg r) ≡ take_message ks msg (seen f r)
  unfolding take_message hear_push
  take_message-seen msg r = ap (with_heard (take_message hs msg r)) (commutes _ _)

  over_req-seen :
      (g : Client × Engine F → Client × Engine F) (r : Running F H)
      → seen f (over_req g r) ≡ over_req g (seen f r)
  unfolding over_req
  over_req-seen g r = if_map (seen f) r.is_live refl refl

  hear_taken-seen :
      (i : ℕ) (found : Option (Change F) × List (List (Change F))) (r : Running F H)
      → seen f (hear_taken hs i found r) ≡ hear_taken ks i found (seen f r)
  unfolding hear_taken
  hear_taken-seen i (none, qs) r = refl
  hear_taken-seen i (some c, qs) r =
      ap (with_heard (record r { engine = record r.engine { subs = qs } })) (commutes _ _)

  hear_change-seen :
      (i : ℕ) (r : Running F H) → seen f (hear_change hs i r) ≡ hear_change ks i (seen f r)
  unfolding hear_change
  hear_change-seen i r = hear_taken-seen i (take_first i r.engine.subs) r

  polled_on-seen :
      (counters : Counters) (p : Result (Unit {0}) × Running F H)
      → over_result f (polled_on hs counters p) ≡ polled_on ks counters (over (seen f) p)
  unfolding polled_on reload
  polled_on-seen (since, failures) (err e, r) = refl
  polled_on-seen (since, failures) (ok u, r) =
      let polls = hear_poll-seen false r in
      if_map (over_result f) (leb 60 (since + 1)) (ap (λ t. (ok (0, 0), reload ks t)) polls)
        (ap (λ t. (ok (since + 1, 0), t)) polls)

  poll_tick-seen :
      (counters : Counters) (r : Running F H)
      → over_result f (poll_tick hs counters r) ≡ poll_tick ks counters (seen f r)
  unfolding poll_tick
  poll_tick-seen counters r =
      polled_on-seen counters (attempt hs r) ∙ ap (polled_on ks counters) (attempt-seen r)

  late_left-seen :
      (r : Running F H) (rest : List (Client × Counters)) (p : Result Counters × Running F H)
      → seen f (late_left hs r rest p) ≡ late_left ks (seen f r) rest (over_result f p)
  unfolding late_left
  late_left-seen r rest (ok counters, t) = refl
  late_left-seen r rest (err e, t) = refl

  late_at-seen :
      (p : Option (Client × Counters) × List (Client × Counters)) (r : Running F H)
      → seen f (late_at hs p r) ≡ late_at ks p (seen f r)
  unfolding late_at
  late_at-seen (none, rest) r = refl
  late_at-seen (some (c, counters), rest) r =
      late_left-seen r rest (poll_tick hs counters (record r { req = c }))
      ∙ ap (late_left ks (seen f r) rest) (poll_tick-seen counters (record r { req = c }))

  ticked-seen :
      (p : Result Counters × Running F H) → over_error f (ticked hs p) ≡ ticked ks (over_result f p)
  unfolding ticked
  ticked-seen (ok counters, r) = refl
  ticked-seen (err e, r) = refl

  own_tick-seen :
      (o : Option Counters) (r : Running F H)
      → over_error f (own_tick hs o r) ≡ own_tick ks o (seen f r)
  unfolding own_tick
  own_tick-seen none r = refl
  own_tick-seen (some counters) r =
      ticked-seen (poll_tick hs counters r) ∙ ap (ticked ks) (poll_tick-seen counters r)

  push_message-seen :
      (p : Result Fields × Client) (r : Running F H)
      → over_error f (push_message hs p r) ≡ push_message ks p (seen f r)
  unfolding push_message
  push_message-seen (err e, c) r = refl
  push_message-seen (ok m, c) r = ap (λ t. (none, t)) (take_message-seen m (record r { push = c }))

  turn-seen : (t : Turn) (r : Running F H) → over_error f (turn hs t r) ≡ turn ks t (seen f r)
  unfolding turn late_tick
  turn-seen tick r = own_tick-seen r.poller r
  turn-seen message r =
      if_map (over_error f) r.is_pushing (push_message-seen (read_message r.push) r) refl
  turn-seen (write objnam params) r = ap (λ t. (none, t)) (over_req-seen (writing objnam params) r)
  turn-seen (refresh id) r = ap (λ t. (none, t)) (over_req-seen (refreshing id) r)
  turn-seen (receive i) r = ap (λ t. (none, t)) (hear_change-seen i r)
  turn-seen (late i) r = ap (λ t. (none, t)) (late_at-seen (take_out i r.strays) r)

  linger-seen :
      (turns : List Turn) (r : Running F H)
      → seen f (linger hs turns r) ≡ linger ks turns (seen f r)
  unfolding linger
  linger-seen [] r = refl
  linger-seen (t ∷ turns) r =
      linger-seen turns (turn hs t r).1 ∙ ap (λ p. linger ks turns p.1) (turn-seen t r)

  going-seen :
      (turns : List Turn)
      → ((r : Running F H)
          → over (seen f) (session_loop hs turns r) ≡ session_loop ks turns (seen f r))
      → (p : Option Error × Running F H)
      → over (seen f) (going hs turns p) ≡ going ks turns (over_error f p)
  going-seen turns further (none, r) = further r
  going-seen turns further (some e, r) = ap (λ t. (err e, t)) (linger-seen turns r)

  session_loop-seen :
      (turns : List Turn) (r : Running F H)
      → over (seen f) (session_loop hs turns r) ≡ session_loop ks turns (seen f r)
  unfolding session_loop
  session_loop-seen [] r = refl
  session_loop-seen (t ∷ turns) r =
      going-seen turns (session_loop-seen turns) (turn hs t r) ∙ ap (going ks turns) (turn-seen t r)

  begin-seen :
      (turns : List Turn) (started : Result (Unit {0}) × (Client × Engine F)) (r : Running F H)
      → over (seen f) (begin hs turns started r) ≡ begin ks turns started (seen f r)
  unfolding begin hear_scan set_req_client start_loops
  begin-seen turns (err e, s) r = refl
  begin-seen turns (ok u, (c, e)) r =
      let live = set_req_client true (record r { req = c; engine = e }) in
      session_loop-seen turns (start_loops (hear_poll hs true (hear_scan hs (ok tt) live)))
      ∙ ap (λ t. session_loop ks turns (start_loops t))
          (hear_poll-seen true (hear_scan hs (ok tt) live)
            ∙ ap (λ k. hear_poll ks true (with_heard live k)) (commutes _ _))

  resolve_host-seen :
      (found : Result String) (r : Running F H)
      → over (seen f) (resolve_host found r) ≡ resolve_host found (seen f r)
  unfolding resolve_host
  resolve_host-seen (ok host) r = refl
  resolve_host-seen (err e) r = refl

  outlive-seen :
      (o : Option Counters) (r : Running F H) → seen f (outlive o r) ≡ outlive o (seen f r)
  unfolding outlive
  outlive-seen none r = refl
  outlive-seen (some counters) r = refl

  engine_steps-Agrees : (w : Round) → Agrees (engine_steps hs w) (engine_steps ks w) (seen f)
  unfolding engine_steps session hear_scan set_req_client
  engine_steps-Agrees w = record {
    resolve = λ r.
        resolve_host-seen w.resolved (linger hs w.before r)
        ∙ ap (resolve_host w.resolved) (linger-seen w.before r);
    connect_req = λ r. refl;
    connect_push = λ r. refl;
    session = λ r. begin-seen w.turns (start_session (r.req, r.engine)) r;
    on_scan = λ e r.
        linger-seen w.closing (hear_scan hs (err e) r)
        ∙ ap (λ k. linger ks w.closing (with_heard r k)) (commutes _ _);
    close_req = λ r. outlive-seen r.poller (record r { req = close r.req });
    close_push = λ r. refl;
    drop_req = λ r. refl;
    canceled = λ r. refl;
  }

  -- If a map between the states of two users commutes with what they do, it takes what `Run` does for
  -- the one to what it does for the other: the engine and its connections do not depend on the user.
  pub run_engine-seen :
      (rounds : List Round) (r : Running F H)
      → seen f (run_engine hs rounds r) ≡ run_engine ks rounds (seen f r)
  unfolding run_engine
  run_engine-seen rounds r =
      run-agrees (engine_steps hs) (engine_steps ks) (seen f) engine_steps-Agrees rounds
        engine_reconnect r
