-- ===== src/Monitor/Watch/Groups.antt =====
-- The equipment that only listen mode tracks: `trackCircGrp` and `trackUnknownEquipment` of main.go.
use Prim.Native.String.{◌++◌ as concat}
use pentameter.Prelude.{
  String, Bool, Option, none, some, List, [], ◌∷◌, ◌==◌, ◌||◌, any, if◌then◌else◌,
}
use pentameter.Prelude.Map.{Map, lookup, insert, lookup_or}
use pentameter.Prelude.Float.{Floats}
use pentameter.Prelude.Text.{has_prefix}
use pentameter.IntelliCenter.Types.{ObjectData}
use pentameter.IntelliCenter.Parse.{param}
use pentameter.Monitor.Watch.{
  Watch, Line, EquipmentState, CircGrpState, unknown_state, report, report_circ_grp,
  resolve_circuit_name, noted, noting,
}

abbrev pub circ_grp_state : ObjectData → CircGrpState
circ_grp_state obj = record {
  active = param "ACT" obj.params;
  use_of = param "USE" obj.params;
  circuit = param "CIRCUIT" obj.params;
  parent = param "PARENT" obj.params;
}

module _ {F : Type 0} ⦃fl : Floats F⦄ where
  -- `trackCircGrp`, by the table of the circuits' names
  unfoldable pub track_circ_grp : Map String → ObjectData → Watch F → Watch F
  track_circ_grp names obj =
      let new = circ_grp_state obj in
      noting
        (λ s done.
          report_circ_grp done (resolve_circuit_name names new.parent)
            (resolve_circuit_name names new.circuit) (lookup obj.obj_name s.circ_grps) new)
        (λ s. record s { circ_grps = insert obj.obj_name new s.circ_grps })

-- The types that are tracked elsewhere, and the type that is missing.
abbrev pub tracked_type : String → Bool
tracked_type t = any (λ k. t == k) ("BODY" ∷ "PUMP" ∷ "CIRCUIT" ∷ "HEATER" ∷ "CIRCGRP" ∷ "" ∷ [])

-- `objType/subtype:status`
unfoldable pub tracking_value : String → String → String → String
tracking_value type subtype status =
    if subtype == ""
    then concat type (concat ":" status)
    else concat type (concat "/" (concat subtype (concat ":" status)))

module _ {F : Type 0} where
  -- The lines on an equipment of a type that is not tracked elsewhere.
  unfoldable pub report_unknown : ObjectData → Bool → Option String → String → List (Line F)
  unfolding report
  report_unknown obj done prev value =
      (report (unknown_state (param "SNAME" obj.params) obj.obj_name (param "OBJTYP" obj.params))
        done (λ a b. a == b) [] prev value).0

  abbrev pub unknown_of : Option (EquipmentState F) → ObjectData → Watch F → Watch F
  unknown_of none obj w = w
  unknown_of (some s) obj w =
      let kind = param "OBJTYP" obj.params in
      let value = tracking_value kind (param "SUBTYP" obj.params) (param "STATUS" obj.params) in
      if tracked_type kind || (has_prefix obj.obj_name "_" || has_prefix obj.obj_name "X")
      then w
      else noted (λ t. record t { unknown_equip = insert obj.obj_name value t.unknown_equip })
          (report_unknown obj w.initial_poll_done (lookup obj.obj_name s.unknown_equip) value, 0) s
          w

  -- `trackUnknownEquipment`, which logs its changes without counting them
  unfoldable pub track_unknown_equipment : ObjectData → Watch F → Watch F
  unfolding lookup_or
  track_unknown_equipment obj w = if w.listen_mode then unknown_of w.previous_state obj w else w
