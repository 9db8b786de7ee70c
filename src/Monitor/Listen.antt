-- ===== src/Monitor/Listen.antt =====
-- Listen mode: `listenPoll` of listen_engine.go, and the queries of main.go that it adds to the
-- engine's scan.
pub mod Pushes
pub mod Notified
pub mod Lines
pub mod Deaf
use pentameter.Prelude.{
  String, Bool, true, false, Option, none, some, List, [], ◌∷◌, ◌&&◌, not, eqb, if◌then◌else◌,
}
use pentameter.Prelude.Map.{Map}
use pentameter.Prelude.Float.{Floats}
use pentameter.IntelliCenter.Types.{ObjectData, Request}
use pentameter.IntelliCenter.Result.{Result, ok, err}
use pentameter.IntelliCenter.Client.{Client, do_request, request, keys_of, objects_of}
use pentameter.IntelliCenter.Engine.{Engine}
use pentameter.Monitor.Watch.{
  Watch, EquipmentState, no_changes, circuit_groups_failed, all_objects_failed, logged, state_of,
  initial_state,
}
use pentameter.Monitor.Watch.Groups.{track_circ_grp, track_unknown_equipment}
use pentameter.Monitor.State.{PoolMonitor}
use pentameter.Monitor.Refresh.{refresh_from_engine}

-- The requests of `getCircuitGroups` and `getAllObjects`
abbrev pub circuit_groups_request : Request
circuit_groups_request = request "GetParamList" "OBJTYP=CIRCGRP" (
    keys_of "INCR"
      ("OBJTYP" ∷ "PARENT" ∷ "CIRCUIT" ∷ "ACT" ∷ "USE" ∷ "DLY" ∷ "LISTORD" ∷ "STATIC" ∷ [])
    ∷ [])

abbrev pub all_objects_request : Request
all_objects_request =
    request "GetParamList" "" (keys_of "INCR" ("SNAME" ∷ "STATUS" ∷ "OBJTYP" ∷ "SUBTYP" ∷ []) ∷ [])

module _ {F : Type 0} ⦃fl : Floats F⦄ where
  unfoldable pub track_circ_grps : Map String → List ObjectData → Watch F → Watch F
  track_circ_grps names [] w = w
  track_circ_grps names (o ∷ objs) w = track_circ_grps names objs (track_circ_grp names o w)

  -- What `getCircuitGroups` makes of the answer; its error is logged by `listenPoll`.
  unfoldable pub note_circuit_groups : Map String → Result (List ObjectData) → Watch F → Watch F
  unfolding track_circ_grps
  note_circuit_groups names (ok objs) w = track_circ_grps names objs w
  note_circuit_groups names (err e) w = logged circuit_groups_failed w

  -- `getCircuitGroups`
  unfoldable pub get_circuit_groups : Client × PoolMonitor F → Client × PoolMonitor F
  unfolding note_circuit_groups
  get_circuit_groups (c, m) =
      let (result, c') = do_request circuit_groups_request c in
      (c', record m { watch = note_circuit_groups m.circuit_names (objects_of result) m.watch })

  unfoldable pub track_all_unknown : List ObjectData → Watch F → Watch F
  track_all_unknown [] w = w
  track_all_unknown (o ∷ objs) w = track_all_unknown objs (track_unknown_equipment o w)

  -- What `getAllObjects` makes of the answer; its error is logged by `listenPoll`.
  unfoldable pub note_all_objects : Result (List ObjectData) → Watch F → Watch F
  unfolding track_all_unknown
  note_all_objects (ok objs) w = track_all_unknown objs w
  note_all_objects (err e) w = logged all_objects_failed w

  -- `getAllObjects`
  unfoldable pub get_all_objects : Client × PoolMonitor F → Client × PoolMonitor F
  unfolding note_all_objects
  get_all_objects (c, m) =
      let (result, c') = do_request all_objects_request c in
      (c', record m { watch = note_all_objects (objects_of result) m.watch })

  -- The start of `listenPoll`. (With no state the program would panic; it is never without one, for
  -- `runListenEngine` initialises it.)
  unfoldable pub start_poll : Bool → Watch F → Watch F
  start_poll baseline w =
      let reset =
        if baseline
        then record w { previous_state = some initial_state; initial_poll_done = false }
        else w in
      record reset {
        previous_state = some (record (state_of reset.previous_state) { poll_change_count = 0 });
      }

  -- The end of `listenPoll`.
  unfoldable pub finish_poll : Bool → Watch F → Watch F
  unfolding logged
  finish_poll was_initial w =
      let done = record w { initial_poll_done = true } in
      if not was_initial && eqb (state_of w.previous_state).poll_change_count 0
      then logged no_changes done
      else done

  -- What `listenPoll` does between the two.
  unfoldable pub poll_equipment : Engine F → Client × PoolMonitor F → Client × PoolMonitor F
  unfolding get_circuit_groups get_all_objects
  poll_equipment e (c, m) = get_all_objects (get_circuit_groups (c, refresh_from_engine e m))

  -- `listenPoll`
  unfoldable pub listen_poll : Bool → Engine F → Client × PoolMonitor F → Client × PoolMonitor F
  unfolding start_poll finish_poll poll_equipment
  listen_poll baseline e (c, m) =
      let started = start_poll baseline m.watch in
      let (c', m') = poll_equipment e (c, record m { watch = started }) in
      (c', record m' { watch = finish_poll (not started.initial_poll_done) m'.watch })

  -- `runListenEngine` starts with an initial state.
  abbrev pub listener : PoolMonitor F → PoolMonitor F
  listener m = record m {
    watch = record m.watch { listen_mode = true; previous_state = some initial_state };
  }
