-- ===== src/IntelliCenter/Engine/Running/Down.antt =====
-- What a round of `Run` leaves open of its connections and loops: nothing but late poll loops.
use pentameter.Prelude.{
  ℕ, ◌+◌, String, false, Option, none, some, List, [], ◌∷◌, ◌≡◌, refl, sym, subst, ap, if_elim,
  if_split, ◌∙◌, leb,
}
use pentameter.Prelude.Float.{Floats}
use pentameter.IntelliCenter.Result.{Error, Result, ok, err}
use pentameter.IntelliCenter.Client.{Client, close}
use pentameter.IntelliCenter.Engine.{Engine, Change}
use pentameter.IntelliCenter.Engine.Rounds.{run_round}
use pentameter.IntelliCenter.Engine.Rounds.Kept.{
  run_round-outcome, no_host, no_req, no_push, ended, stopped,
}
use pentameter.IntelliCenter.Engine.Running.{
  Hooks, Turn, tick, message, write, refresh, receive, late, Counters, Round, Running, take_first,
  over_req, hear_scan, hear_poll, hear_taken, hear_change, attempt, reload, take_out, writing,
  refreshing, outlive, polled_on, poll_tick, late_left, late_at, late_tick, own_tick, turn, linger,
  resolve_host, set_req_client, engine_steps,
}

module _ {F : Type 0} ⦃fl : Floats F⦄ {H : Type 0} (hooks : Hooks F H) where
  -- Both connections are closed, no other goroutine can write, and no loop runs but those that have
  -- outlived their sessions.
  abbrev pub IsDown : Running F H → Type 0
  IsDown r =
      (r.req.conn ≡ none)
      × (r.push.conn ≡ none)
      × (r.is_live ≡ false)
      × (r.poller ≡ none)
      × (r.is_pushing ≡ false)

  over_req-IsDown :
      (f : Client × Engine F → Client × Engine F) (r : Running F H)
      → IsDown r
      → IsDown (over_req f r)
  unfolding over_req
  over_req-IsDown f r h =
      if_split IsDown r.is_live (λ live. let never : ⊥ = cc (live, h.2) in absurd never) (λ _. h)

  hear_taken-IsDown :
      (i : ℕ) (found : Option (Change F) × List (List (Change F))) (r : Running F H)
      → IsDown r
      → IsDown (hear_taken hooks i found r)
  unfolding hear_taken
  hear_taken-IsDown i (none, qs) r h = h
  hear_taken-IsDown i (some c, qs) r h = h

  -- What a tick keeps, and a late one too.
  abbrev KeepsDown : Running F H → Running F H → Type 0
  KeepsDown r t =
      (t.push ≡ r.push)
      × (t.is_live ≡ r.is_live)
      × (t.poller ≡ r.poller)
      × (t.is_pushing ≡ r.is_pushing)

  polled_on-keeps :
      (counters : Counters) (r : Running F H) (p : Result (Unit {0}) × Running F H)
      → KeepsDown r p.1
      → KeepsDown r (polled_on hooks counters p).1
  unfolding polled_on hear_poll reload
  polled_on-keeps (since, failures) r (err e, t) h = h
  polled_on-keeps (since, failures) r (ok u, t) h =
      if_elim (λ (x : Result Counters × Running F H). KeepsDown r x.1) (leb 60 (since + 1)) h h

  late_left-IsDown :
      (r : Running F H) (rest : List (Client × Counters)) (p : Result Counters × Running F H)
      → KeepsDown r p.1
      → IsDown r
      → IsDown (late_left hooks r rest p)
  unfolding late_left
  late_left-IsDown r rest (ok counters, t) (same, live, poller, pushing)
        (req, push, dead, idle, still) =
      (req, ap (λ (c : Client). c.conn) same ∙ push, live ∙ dead, poller ∙ idle, pushing ∙ still)
  late_left-IsDown r rest (err e, t) (same, live, poller, pushing) (req, push, dead, idle, still) =
      (req, ap (λ (c : Client). c.conn) same ∙ push, live ∙ dead, poller ∙ idle, pushing ∙ still)

  late_at-IsDown :
      (p : Option (Client × Counters) × List (Client × Counters)) (r : Running F H)
      → IsDown r
      → IsDown (late_at hooks p r)
  unfolding late_at poll_tick attempt hear_scan
  late_at-IsDown (none, rest) r h = h
  late_at-IsDown (some (c, counters), rest) r h =
      late_left-IsDown r rest _
        (polled_on-keeps counters r (attempt hooks (record r { req = c })) (refl, refl, refl, refl))
        h

  own_tick-IsDown :
      (o : Option Counters) (r : Running F H) → o ≡ none → IsDown r → IsDown (own_tick hooks o r).1
  unfolding own_tick
  own_tick-IsDown none r idle h = h
  own_tick-IsDown (some counters) r idle h = let never : ⊥ = cc in absurd never

  turn-IsDown : (t : Turn) (r : Running F H) → IsDown r → IsDown (turn hooks t r).1
  unfolding turn late_tick hear_change
  turn-IsDown tick r h = own_tick-IsDown r.poller r h.3 h
  turn-IsDown message r h =
      if_split (λ (x : Option Error × Running F H). IsDown x.1) r.is_pushing
        (λ pushing. let never : ⊥ = cc (pushing, h.4) in absurd never) (λ _. h)
  turn-IsDown (write objnam params) r h = over_req-IsDown (writing objnam params) r h
  turn-IsDown (refresh id) r h = over_req-IsDown (refreshing id) r h
  turn-IsDown (receive i) r h = hear_taken-IsDown i (take_first i r.engine.subs) r h
  turn-IsDown (late i) r h = late_at-IsDown (take_out i r.strays) r h

  linger-IsDown : (turns : List Turn) (r : Running F H) → IsDown r → IsDown (linger hooks turns r)
  unfolding linger
  linger-IsDown [] r h = h
  linger-IsDown (t ∷ turns) r h = linger-IsDown turns _ (turn-IsDown t r h)

  resolve_host-IsDown :
      (found : Result String) (r : Running F H) → IsDown r → IsDown (resolve_host found r).1
  unfolding resolve_host
  resolve_host-IsDown (ok host) r h = h
  resolve_host-IsDown (err e) r h = h

  outlive-IsDown :
      (o : Option Counters) (r : Running F H)
      → r.poller ≡ o
      → r.req.conn ≡ none
      → ((outlive o r).req.conn ≡ none) × ((outlive o r).poller ≡ none)
  unfolding outlive
  outlive-IsDown none r same closed = (closed, same)
  outlive-IsDown (some counters) r same closed = (closed, refl)

  -- The closing at the end of a round.
  abbrev shut : Running F H → Running F H
  shut r =
      let t = outlive r.poller (record r { req = close r.req }) in
      set_req_client false (record t { push = close t.push; is_pushing = false })

  shut-IsDown : (r : Running F H) → IsDown (shut r)
  unfolding set_req_client close
  shut-IsDown r =
      let (req, idle) = outlive-IsDown r.poller (record r { req = close r.req }) refl refl in
      (req, refl, refl, idle, refl)

  pub engine_steps-IsDown :
      (w : Round) (r : Running F H) → IsDown r → IsDown (run_round (engine_steps hooks w) r)
  unfolding engine_steps hear_scan
  engine_steps-IsDown w r h =
      let told = linger-IsDown w.before r h in
      elim (run_round-outcome (engine_steps hooks w) r) [
        | no_host e same ↦
            subst IsDown (sym same)
              (linger-IsDown w.closing _ (resolve_host-IsDown w.resolved _ told))
        | no_req e same ↦ subst IsDown (sym same) (shut-IsDown _)
        | no_push e same ↦ subst IsDown (sym same) (shut-IsDown _)
        | ended e bad same ↦ subst IsDown (sym same) (shut-IsDown _)
        | stopped good same ↦ subst IsDown (sym same) (shut-IsDown _)
      ]
