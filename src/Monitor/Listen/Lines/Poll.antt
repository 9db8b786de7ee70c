-- ===== src/Monitor/Listen/Lines/Poll.antt =====
-- What a poll of listen mode logs: `listenPoll` of listen_engine.go.
use pentameter.Prelude.{
  ℕ, String, Bool, true, false, List, [], ◌∷◌, ◌++◌, ◌&&◌, ◌||◌, not, eqb, ◌≡◌, refl, ap, sym, ◌∙◌,
  arith, if◌then◌else◌, if_elim,
}
use mathlib.Core.List.{append_assoc, append-nil}
use pentameter.Prelude.Map.{Map}
use pentameter.Prelude.Float.{Floats}
use pentameter.IntelliCenter.Types.{ObjectData}
use pentameter.IntelliCenter.Result.{Result, ok, err}
use pentameter.IntelliCenter.Client.{Client, do_request, objects_of}
use pentameter.IntelliCenter.Engine.{Engine}
use pentameter.Monitor.Watch.{
  Watch, Line, no_changes, circuit_groups_failed, all_objects_failed, logged, state_of,
}
use pentameter.Monitor.Watch.Groups.{track_circ_grp, track_unknown_equipment}
use pentameter.Monitor.State.{PoolMonitor}
use pentameter.Monitor.Refresh.{refresh_from_engine}
use pentameter.Monitor.Listen.{
  track_circ_grps, note_circuit_groups, get_circuit_groups, track_all_unknown, note_all_objects,
  get_all_objects, circuit_groups_request, all_objects_request, start_poll, finish_poll,
  poll_equipment, listen_poll,
}
use pentameter.Monitor.Listen.Lines.{changes, silences, Adds, Adds-refl, Adds-trans, logged-Adds}
use pentameter.Monitor.Listen.Lines.Trackers.{track_circ_grp-Adds, track_unknown_equipment-Adds}
use pentameter.Monitor.Listen.Lines.Steps.{Logs, Logs-trans}
use pentameter.Monitor.Listen.Lines.Refresh.{refresh_from_engine-Logs}

module _ {F : Type 0} ⦃fl : Floats F⦄ where
  track_circ_grps-Adds :
      (names : Map String) (objs : List ObjectData) (w : Watch F)
      → Adds w (track_circ_grps names objs w)
  unfolding track_circ_grps
  track_circ_grps-Adds names [] w = Adds-refl w
  track_circ_grps-Adds names (o ∷ objs) w =
      let v = track_circ_grp names o w in
      Adds-trans w v (track_circ_grps names objs v) (track_circ_grp-Adds names o w)
        (track_circ_grps-Adds names objs v)

  track_all_unknown-Adds :
      (objs : List ObjectData) (w : Watch F) → Adds w (track_all_unknown objs w)
  unfolding track_all_unknown
  track_all_unknown-Adds [] w = Adds-refl w
  track_all_unknown-Adds (o ∷ objs) w =
      let v = track_unknown_equipment o w in
      Adds-trans w v (track_all_unknown objs v) (track_unknown_equipment-Adds o w)
        (track_all_unknown-Adds objs v)

  note_circuit_groups-Adds :
      (names : Map String) (r : Result (List ObjectData)) (w : Watch F)
      → Adds w (note_circuit_groups names r w)
  unfolding note_circuit_groups
  note_circuit_groups-Adds names (ok objs) w = track_circ_grps-Adds names objs w
  note_circuit_groups-Adds names (err e) w = logged-Adds circuit_groups_failed (refl, refl) w

  note_all_objects-Adds :
      (r : Result (List ObjectData)) (w : Watch F) → Adds w (note_all_objects r w)
  unfolding note_all_objects
  note_all_objects-Adds (ok objs) w = track_all_unknown-Adds objs w
  note_all_objects-Adds (err e) w = logged-Adds all_objects_failed (refl, refl) w

  poll_equipment-Logs :
      (e : Engine F) (c : Client) (m : PoolMonitor F) → Logs m (poll_equipment e (c, m)).1
  unfolding poll_equipment get_circuit_groups get_all_objects Logs
  poll_equipment-Logs e c m =
      let refreshed = refresh_from_engine e m in
      let (c', grouped) = get_circuit_groups (c, refreshed) in
      Logs-trans m refreshed (poll_equipment e (c, m)).1 (refresh_from_engine-Logs e m) (
        Logs-trans refreshed grouped (poll_equipment e (c, m)).1
          (note_circuit_groups-Adds refreshed.circuit_names
            (objects_of (do_request circuit_groups_request c).0) refreshed.watch)
          (note_all_objects-Adds (objects_of (do_request all_objects_request c').0) grouped.watch))

  -- The line at the end of a poll.
  abbrev pub ending : Bool → ℕ → List (Line F)
  ending initial n = if not initial && eqb n 0 then no_changes ∷ [] else []

  finish_poll-lines :
      (initial : Bool) (w : Watch F)
      → (finish_poll initial w).lines
        ≡ w.lines ++ ending initial (state_of w.previous_state).poll_change_count
  unfolding finish_poll logged
  finish_poll-lines initial w =
      let quiet = not initial && eqb (state_of w.previous_state).poll_change_count 0 in
      quiet_lines quiet
    where
      quiet_lines :
          (b : Bool)
          → (if b
              then record w { initial_poll_done = true; lines = w.lines ++ no_changes ∷ [] }
              else record w { initial_poll_done = true }).lines
            ≡ w.lines ++ (if b then no_changes ∷ [] else [])
      quiet_lines true = refl
      quiet_lines false = sym (append-nil w.lines)

  finish_poll-keeps :
      (initial : Bool) (w : Watch F)
      → ((finish_poll initial w).previous_state ≡ w.previous_state)
        × ((finish_poll initial w).initial_poll_done ≡ true)
  unfolding finish_poll logged
  finish_poll-keeps initial w =
      if_elim
        (λ (v : Watch F). (v.previous_state ≡ w.previous_state) × (v.initial_poll_done ≡ true))
        (not initial && eqb (state_of w.previous_state).poll_change_count 0) (refl, refl)
        (refl, refl)

  start_poll-lines :
      (baseline : Bool) (w : Watch F)
      → ((start_poll baseline w).lines ≡ w.lines)
        × ((state_of (start_poll baseline w).previous_state).poll_change_count ≡ 0)
        × (not (start_poll baseline w).initial_poll_done ≡ baseline || not w.initial_poll_done)
  unfolding start_poll
  start_poll-lines true w = (refl, refl, refl)
  start_poll-lines false w = (refl, refl, refl)

  -- A poll adds its lines to the log, and counts the changes among them, those of unknown equipment
  -- left out. It says that there are no changes exactly if the count is 0 and the poll was not the
  -- first one of a session, and then once and last. After it, the first poll is done.
  pub listen_poll-lines :
      (baseline : Bool) (e : Engine F) (c : Client) (m : PoolMonitor F)
      → (ls : List (Line F)) × ((listen_poll baseline e (c, m)).1.watch.lines
          ≡ m.watch.lines
            ++ (ls ++ ending (baseline || not m.watch.initial_poll_done) (changes ls)))
        × ((state_of (listen_poll baseline e (c, m)).1.watch.previous_state).poll_change_count
            ≡ changes ls)
        × ((listen_poll baseline e (c, m)).1.watch.initial_poll_done ≡ true)
        × (silences ls ≡ 0)
  unfolding listen_poll Adds Logs
  listen_poll-lines baseline e c m =
      let started = start_poll baseline m.watch in
      let polled = (poll_equipment e (c, record m { watch = started })).1.watch in
      let (kept, zeroed, initial) = start_poll-lines baseline m.watch in
      let (ls, at, counted, no_silence, mode, done) =
        poll_equipment-Logs e c (record m { watch = started }) in
      let (same, finished) = finish_poll-keeps (not started.initial_poll_done) polled in
      let total : (state_of polled.previous_state).poll_change_count ≡ changes ls =
        omega (arith, zeroed, counted) in
      (
        ls,
        finish_poll-lines (not started.initial_poll_done) polled
            ∙ (ap (λ n. polled.lines ++ ending (not started.initial_poll_done) n) total
                ∙ (ap (λ b. polled.lines ++ ending b (changes ls)) initial
                    ∙ (ap
                          (λ k.
                            k ++ ending (baseline || not m.watch.initial_poll_done) (changes ls))
                          (at ∙ ap (λ k. k ++ ls) kept)
                        ∙ append_assoc m.watch.lines ls _))),
        ap (λ o. (state_of o).poll_change_count) same ∙ total,
        finished,
        no_silence,
      )
