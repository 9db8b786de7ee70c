-- ===== src/Monitor/Listen/Pushes.antt =====
-- The pushes of listen mode: `processRawPushNotification` of main.go and what it calls, and the hook
-- OnRawPush of listen_engine.go. `format` is what `fmt.Sprintf("%v", v)` makes of a value.
use pentameter.Prelude.{String, Option, none, some, [], ◌∷◌, ◌==◌, ◌||◌, if◌then◌else◌}
use pentameter.Prelude.Map.{Map, insert, lookup_or}
use pentameter.Prelude.Float.{Floats}
use pentameter.IntelliCenter.Types.{ObjectData}
use pentameter.IntelliCenter.Parse.{param}
use pentameter.IntelliCenter.Json.{
  Json, Items, Fields, text, nil, cons, end, field, member, as_text, as_array, as_object,
}
use pentameter.Monitor.Watch.{
  pushed, push_message, body_pushed, pump_pushed, pump_failed, circuit_pushed, heater_pushed,
  circ_grp_pushed, unknown_pushed, Line, logged, resolve_circuit_name,
}
use pentameter.Monitor.Watch.Groups.{track_circ_grp}
use pentameter.Monitor.State.{PoolMonitor, BodyHeaterInfo}
use pentameter.Monitor.Bodies.{process_body_object}
use pentameter.Monitor.Pumps.{process_pump_object}
use pentameter.Monitor.Circuits.{process_circuit_object}
use pentameter.Monitor.Thermal.{process_heater_object}

module _ (format : Json → String) where
  abbrev shown : Json → String
  shown (text s) = s
  shown v = format v

  -- The params of `convertToObjectData`.
  unfoldable pub convert_params : Fields → Map String
  convert_params end = []
  convert_params (field k v fs) = (k, shown v) ∷ convert_params fs

  unfoldable pub convert_to_object_data : String → Fields → ObjectData
  unfolding convert_params
  convert_to_object_data objnam params_raw = record {
    obj_name = objnam;
    params = convert_params params_raw;
  }

module _ {F : Type 0} where
  unfoldable pub say : Line F → PoolMonitor F → PoolMonitor F
  unfolding logged
  say l m = record m { watch = logged l m.watch }

  -- The loop of `handleBodyPush` over the heaters that the body refers to.
  unfoldable pub merge_heaters :
      Map (BodyHeaterInfo F) → Map (BodyHeaterInfo F) → Map (BodyHeaterInfo F)
  merge_heaters [] refs = refs
  merge_heaters ((k, v) ∷ more) refs = merge_heaters more (insert k v refs)

module _ {F : Type 0} ⦃fl : Floats F⦄ where
  unfoldable pub handle_body_push : ObjectData → String → PoolMonitor F → PoolMonitor F
  unfolding merge_heaters say
  handle_body_push obj name m =
      let (m', refs) = process_body_object obj (m, []) in
      say
        (pushed (
          body_pushed name (param "TEMP" obj.params) (param "SETPT" obj.params)
            (param "HTMODE" obj.params) (param "STATUS" obj.params)))
        (record m' { referenced_heaters = merge_heaters refs m'.referenced_heaters })

  -- `handlePumpPush`; `processPumpObject` returns an error if the speed does not parse.
  unfoldable pub handle_pump_push : ObjectData → String → PoolMonitor F → PoolMonitor F
  unfolding lookup_or say
  handle_pump_push obj name m =
      let rpm = param "RPM" obj.params in
      let skipped = (rpm == "") || (param "SNAME" obj.params == "") in
      let line =
        if skipped || (fl.parse rpm).1
        then pump_pushed name rpm (param "PWR" obj.params) (param "STATUS" obj.params)
        else pump_failed name in
      say (pushed line) (process_pump_object obj m)

  unfoldable pub handle_circuit_push : ObjectData → String → PoolMonitor F → PoolMonitor F
  unfolding say
  handle_circuit_push obj name m =
      say (pushed (circuit_pushed name (param "STATUS" obj.params))) (process_circuit_object obj m)

  unfoldable pub handle_heater_push : ObjectData → String → PoolMonitor F → PoolMonitor F
  unfolding say
  handle_heater_push obj name m =
      say (pushed (heater_pushed name (param "STATUS" obj.params) (param "MODE" obj.params)))
        (process_heater_object obj m)

  unfoldable pub handle_circ_grp_push : ObjectData → PoolMonitor F → PoolMonitor F
  unfolding say
  handle_circ_grp_push obj m =
      say
        (pushed (
          circ_grp_pushed (resolve_circuit_name m.circuit_names (param "PARENT" obj.params))
            (resolve_circuit_name m.circuit_names (param "CIRCUIT" obj.params))
            (param "ACT" obj.params) (param "USE" obj.params)))
        (record m { watch = track_circ_grp m.circuit_names obj m.watch })

  unfoldable pub handle_unknown_push : ObjectData → PoolMonitor F → PoolMonitor F
  unfolding say
  handle_unknown_push obj m = say (pushed (unknown_pushed obj)) m

  -- `processPushObject`
  unfoldable pub process_push_object : ObjectData → PoolMonitor F → PoolMonitor F
  unfolding handle_body_push handle_pump_push handle_circuit_push handle_heater_push
      handle_circ_grp_push handle_unknown_push lookup_or
  process_push_object obj m =
      let obj_type = param "OBJTYP" obj.params in
      let sname = param "SNAME" obj.params in
      let name = if sname == "" then obj.obj_name else sname in
      if obj_type == "BODY"
      then handle_body_push obj name m
      else if obj_type == "PUMP"
      then handle_pump_push obj name m
      else if obj_type == "CIRCUIT"
      then handle_circuit_push obj name m
      else if obj_type == "HEATER"
      then handle_heater_push obj name m
      else if obj_type == "CIRCGRP"
      then handle_circ_grp_push obj m
      else handle_unknown_push obj m

-- The text of a field, or the empty text.
abbrev text_or_empty : Option String → String
text_or_empty none = ""
text_or_empty (some s) = s

module _ {F : Type 0} ⦃fl : Floats F⦄ (format : Json → String) where
  -- `processChangeItem`
  unfoldable pub process_change_item : Json → PoolMonitor F → PoolMonitor F
  unfolding member convert_to_object_data process_push_object
  process_change_item change m = elim (as_object change) [
    | none ↦ m
    | some fields ↦ elim (as_object (member "params" fields)) [
      | none ↦ m
      | some params ↦
          let objnam = text_or_empty (as_text (member "objnam" fields)) in
          process_push_object (convert_to_object_data format objnam params) m
    ]
  ]

  unfoldable pub process_changes : Items → PoolMonitor F → PoolMonitor F
  unfolding process_change_item
  process_changes nil m = m
  process_changes (cons v items) m = process_changes items (process_change_item v m)

  -- `processObjectListItem`
  unfoldable pub process_object_list_item : Json → PoolMonitor F → PoolMonitor F
  unfolding member process_changes say
  process_object_list_item item m = elim (as_object item) [
    | none ↦ m
    | some fields ↦ elim (as_array (member "changes" fields)) [
      | none ↦ say (push_message fields) m
      | some changes ↦ process_changes changes m
    ]
  ]

  unfoldable pub process_object_list : Items → PoolMonitor F → PoolMonitor F
  unfolding process_object_list_item
  process_object_list nil m = m
  process_object_list (cons v items) m = process_object_list items (process_object_list_item v m)

  -- `processRawPushNotification`
  unfoldable pub process_raw_push_notification : Fields → PoolMonitor F → PoolMonitor F
  unfolding process_object_list member say
  process_raw_push_notification msg m = elim (as_array (member "objectList" msg)) [
    | none ↦ say (push_message msg) m
    | some nil ↦ say (push_message msg) m
    | some (cons v items) ↦ process_object_list (cons v items) m
  ]

  -- The hook OnRawPush: the message is processed, then echoed.
  unfoldable pub on_raw_push : Fields → PoolMonitor F → PoolMonitor F
  unfolding process_raw_push_notification say
  on_raw_push msg m = say (push_message msg) (process_raw_push_notification msg m)
