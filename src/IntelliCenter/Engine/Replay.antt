-- ===== src/IntelliCenter/Engine/Replay.antt =====
-- What a subscriber of the engine can rebuild: applying each change that was emitted, in order, to
-- the snapshot that it started from gives the engine's snapshot.
use pentameter.Prelude.{
  ℕ, zero, suc, ◌+◌, ◌≤◌, ◌<◌, String, Bool, true, false, some, List, [], ◌∷◌, ◌++◌, ◌≡◌, refl, sym,
  ap, ◌∙◌, arith, length, length-append, get_elem?, if◌then◌else◌,
}
use mathlib.Core.List.{append-nil, append_assoc}
use pentameter.Prelude.Map.{Map, insert}
use pentameter.Prelude.Float.{Floats}
use pentameter.IntelliCenter.Types.{
  Kind, circuit, body, pump, heater, sensor, pmpcirc, eq_circuit, eq_body, eq_pump, eq_heater,
  eq_sensor,
}
use pentameter.IntelliCenter.Parse.{circuit_from, body_from, pump_from, heater_from, sensor_from}
use pentameter.IntelliCenter.Engine.{
  Engine, Snapshot, Change, circuit_change, body_change, pump_change, heater_change, sensor_change,
  nothing, reparse, merged, absorb, apply, apply_and_emit, emit, offer_all, engine_sub_buffer,
}
use pentameter.IntelliCenter.Engine.Store.{diff_store-told}

-- A run of updates, as a scan or a push makes them.
abbrev pub Update : Type 0
Update = Kind × String × Map String

module _ {F : Type 0} where
  -- A subscriber's own view of the equipment, updated by a change.
  unfoldable pub replay : Change F → Snapshot F → Snapshot F
  replay (circuit_change v) s = record s { circuits = insert v.id v s.circuits }
  replay (body_change v) s = record s { bodies = insert v.id v s.bodies }
  replay (pump_change v) s = record s { pumps = insert v.id v s.pumps }
  replay (heater_change v) s = record s { heaters = insert v.id v s.heaters }
  replay (sensor_change v) s = record s { sensors = insert v.id v s.sensors }
  replay nothing s = s

  unfoldable pub replay_all : List (Change F) → Snapshot F → Snapshot F
  replay_all [] s = s
  replay_all (c ∷ cs) s = replay_all cs (replay c s)

  replay_all-append :
      (cs ds : List (Change F)) (s : Snapshot F)
      → replay_all (cs ++ ds) s ≡ replay_all ds (replay_all cs s)
  unfolding replay_all
  replay_all-append [] ds s = refl
  replay_all-append (c ∷ cs) ds s = replay_all-append cs ds (replay c s)

  unfoldable pub offer_each : List (Change F) → List (List (Change F)) → List (List (Change F))
  offer_each [] queues = queues
  offer_each (c ∷ cs) queues = offer_each cs (offer_all c queues)

  pub get_elem?-offer_all :
      (c : Change F) (queues : List (List (Change F))) (i : ℕ) (queue : List (Change F))
      → get_elem? queues i ≡ some queue
      → length queue < engine_sub_buffer
      → get_elem? (offer_all c queues) i ≡ some (queue ++ c ∷ [])
  unfolding offer_all
  get_elem?-offer_all c [] i queue at room = cc
  get_elem?-offer_all c (q ∷ queues) zero queue at room = ground arith
  get_elem?-offer_all c (q ∷ queues) (suc i) queue at room =
      get_elem?-offer_all c queues i queue at room

  get_elem?-offer_each :
      (cs : List (Change F)) (queues : List (List (Change F))) (i : ℕ) (queue : List (Change F))
      → get_elem? queues i ≡ some queue
      → length queue + length cs ≤ engine_sub_buffer
      → get_elem? (offer_each cs queues) i ≡ some (queue ++ cs)
  unfolding offer_each
  get_elem?-offer_each [] queues i queue at room = at ∙ ap some (sym (append-nil queue))
  get_elem?-offer_each (c ∷ cs) queues i queue at room =
      get_elem?-offer_each cs (offer_all c queues) i (queue ++ c ∷ [])
        (get_elem?-offer_all c queues i queue at (omega arith))
        (omega (arith, length-append queue (c ∷ [])))
      ∙ ap some (append_assoc queue (c ∷ []) cs)

  -- The news of one update: its change if it was reported.
  abbrev news : Change F × Snapshot F × Bool → List (Change F)
  news (c, s, told) = if told then c ∷ [] else []

  length-news : (x : Change F × Snapshot F × Bool) → length (news x) ≤ 1
  length-news (c, s, true) = omega arith
  length-news (c, s, false) = omega arith

module _ {F : Type 0} ⦃fl : Floats F⦄ where
  -- A reported change is what happened to the snapshot; without one nothing happened.
  reparse-replay :
      (k : Kind) (id : String) (p : Map String) (s : Snapshot F)
      → (reparse k id p s).1 ≡ replay_all (news (reparse k id p s)) s
  unfolding reparse replay replay_all circuit_from body_from pump_from heater_from sensor_from
  reparse-replay circuit id p s =
      ground (arith, diff_store-told eq_circuit id (circuit_from id p) s.circuits)
  reparse-replay body id p s = ground (arith, diff_store-told eq_body id (body_from id p) s.bodies)
  reparse-replay pump id p s = ground (arith, diff_store-told eq_pump id (pump_from id p) s.pumps)
  reparse-replay heater id p s =
      ground (arith, diff_store-told eq_heater id (heater_from id p) s.heaters)
  reparse-replay sensor id p s =
      ground (arith, diff_store-told eq_sensor id (sensor_from id p) s.sensors)
  reparse-replay pmpcirc id p s = refl

  -- What an update tells the subscribers.
  abbrev told : Kind → String → Map String → Engine F → List (Change F)
  told k id partial e = news (reparse k id (merged id partial e) e.snap)

  apply-told :
      (k : Kind) (id : String) (partial : Map String) (e : Engine F)
      → (apply_and_emit k id partial e).subs ≡ offer_each (told k id partial e) e.subs
  unfolding apply_and_emit apply absorb emit offer_each
  apply-told k id partial e = ground arith

  apply-snap :
      (k : Kind) (id : String) (partial : Map String) (e : Engine F)
      → (apply_and_emit k id partial e).snap ≡ replay_all (told k id partial e) e.snap
  unfolding apply_and_emit apply absorb emit
  apply-snap k id partial e = ground (arith, reparse-replay k id (merged id partial e) e.snap)

  unfoldable pub apply_updates : List Update → Engine F → Engine F
  apply_updates [] e = e
  apply_updates ((k, id, partial) ∷ us) e = apply_updates us (apply_and_emit k id partial e)

  -- A subscriber with room for one change for each update receives changes which, applied in order
  -- to the snapshot that the engine had, give the snapshot that the engine has after the updates.
  pub subscriber_rebuilds :
      (us : List Update) (e : Engine F) (i : ℕ) (queue : List (Change F))
      → get_elem? e.subs i ≡ some queue
      → length queue + length us ≤ engine_sub_buffer
      → (cs : List (Change F)) × (get_elem? (apply_updates us e).subs i ≡ some (queue ++ cs))
        × ((apply_updates us e).snap ≡ replay_all cs e.snap)
  unfolding apply_updates replay_all
  subscriber_rebuilds [] e i queue at room = ([], at ∙ ap some (sym (append-nil queue)), refl)
  subscriber_rebuilds ((k, id, partial) ∷ us) e i queue at room =
      let now = told k id partial e in
      let one = length-news (reparse k id (merged id partial e) e.snap) in
      let e' = apply_and_emit k id partial e in
      let (cs, queued, rebuilt) =
        subscriber_rebuilds us e' i (queue ++ now)
          (ap (λ qs. get_elem? qs i) (apply-told k id partial e)
            ∙ get_elem?-offer_each now e.subs i queue at (omega (arith, one)))
          (omega (arith, one, length-append queue now)) in
      (
        now ++ cs,
        queued ∙ ap some (append_assoc queue now cs),
        rebuilt
            ∙ ap (replay_all cs) (apply-snap k id partial e)
            ∙ sym (replay_all-append now cs e.snap),
      )
