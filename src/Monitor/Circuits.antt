-- ===== src/Monitor/Circuits.antt =====
-- Circuits and features: `applyFreezeProtection`, `processCircuitObject` and what it calls, and
-- `applyCircuitStatus` of main.go.
use pentameter.Prelude.{
  String, Bool, true, false, Option, none, some, List, [], ◌∷◌, ◌==◌, ◌&&◌, ◌||◌, not,
  if◌then◌else◌,
}
use pentameter.Prelude.Map.{Map, insert, lookup, lookup_or}
use pentameter.Prelude.Float.{Floats}
use pentameter.Prelude.Text.{has_prefix, has_suffix}
use pentameter.IntelliCenter.Types.{ObjectData}
use pentameter.IntelliCenter.Parse.{param}
use pentameter.Monitor.Gauge.{set}
use pentameter.Monitor.Watch.{track_circuit, track_feature}
use pentameter.Monitor.Watch.Notices.{log_skipped_feature}
use pentameter.Monitor.State.{PoolMonitor}
use pentameter.Monitor.Status.{calculate_circuit_status_value, get_regular_circuit_status}
use pentameter.Monitor.Stale.{metric_key, cleanup_stale_metrics}

-- The loop of `applyFreezeProtection`.
unfoldable pub freeze_active : List ObjectData → Bool
unfolding lookup_or
freeze_active [] = false
freeze_active (o ∷ objs) =
    ((o.obj_name == "_FEA2") && (param "STATUS" o.params == "ON")) || freeze_active objs

-- `isValidCircuit`: circuits and groups, without the generic AUX circuits.
unfoldable pub is_valid_circuit : String → String → String → Bool
is_valid_circuit obj_name name subtype =
    (has_prefix obj_name "C" || has_prefix obj_name "GRP")
    && not (has_prefix obj_name "C" && (has_prefix name "AUX " && (subtype == "GENERIC")))

-- A feature is hidden if its flag is there and does not end in `w`.
abbrev pub visible : Option String → Bool
visible none = true
visible (some shomnu) = has_suffix shomnu "w"

module _ {F : Type 0} where
  -- `applyFreezeProtection`
  unfoldable pub apply_freeze_protection : List ObjectData → PoolMonitor F → PoolMonitor F
  unfolding freeze_active
  apply_freeze_protection objs m = record m { freeze_protection_active = freeze_active objs }

module _ {F : Type 0} ⦃fl : Floats F⦄ where
  -- `processVisibleFeature`, whose value is computed as that of a regular circuit is.
  unfoldable pub process_visible_feature :
      ObjectData → String → String → String → Bool → PoolMonitor F → PoolMonitor F
  process_visible_feature obj name status subtype freeze_enabled m = record m {
    feature_status =
        set (obj.obj_name ∷ name ∷ subtype ∷ [])
          (get_regular_circuit_status m status obj.obj_name freeze_enabled) m.feature_status;
    active_feature_keys = insert (metric_key obj.obj_name name subtype) true m.active_feature_keys;
    watch = track_feature name status m.watch;
  }

  -- `processFeatureObject`
  unfoldable pub process_feature_object :
      ObjectData → String → String → String → Bool → PoolMonitor F → PoolMonitor F
  unfolding process_visible_feature
  process_feature_object obj name status subtype freeze_enabled m =
      if visible (lookup obj.obj_name m.feature_config)
      then process_visible_feature obj name status subtype freeze_enabled m
      else record m { watch = log_skipped_feature name obj.obj_name m.watch }

  -- The circuits among the objects of `processCircuitObject`.
  unfoldable pub process_plain_circuit :
      ObjectData → String → String → String → Bool → PoolMonitor F → PoolMonitor F
  process_plain_circuit obj name status subtype freeze_enabled m =
      if is_valid_circuit obj.obj_name name subtype
      then record m {
        circuit_status =
            set (obj.obj_name ∷ name ∷ subtype ∷ [])
              (calculate_circuit_status_value m name status obj.obj_name freeze_enabled)
              m.circuit_status;
        active_circuit_keys =
            insert (metric_key obj.obj_name name subtype) true m.active_circuit_keys;
        watch = track_circuit name status obj m.watch;
      }
      else m

  -- `processCircuitObject`
  unfoldable pub process_circuit_object : ObjectData → PoolMonitor F → PoolMonitor F
  unfolding process_feature_object process_plain_circuit lookup_or
  process_circuit_object obj m =
      let name = param "SNAME" obj.params in
      let status = param "STATUS" obj.params in
      let subtype = param "SUBTYP" obj.params in
      let freeze_enabled = param "FREEZE" obj.params == "ON" in
      let named = record m { circuit_names = insert obj.obj_name name m.circuit_names } in
      if (name == "") || (status == "")
      then m
      else if has_prefix obj.obj_name "FTR"
      then process_feature_object obj name status subtype freeze_enabled named
      else process_plain_circuit obj name status subtype freeze_enabled named

  unfoldable pub process_circuits : List ObjectData → PoolMonitor F → PoolMonitor F
  unfolding process_circuit_object
  process_circuits [] m = m
  process_circuits (o ∷ objs) m = process_circuits objs (process_circuit_object o m)

  -- The end of `applyCircuitStatus`: the series of the previous refresh that are gone are deleted.
  unfoldable pub cleanup : Map Bool → Map Bool → PoolMonitor F → PoolMonitor F
  unfolding cleanup_stale_metrics
  cleanup circuits features m = record m {
    circuit_status = cleanup_stale_metrics circuits m.active_circuit_keys m.circuit_status;
    feature_status = cleanup_stale_metrics features m.active_feature_keys m.feature_status;
  }

  -- `applyCircuitStatus`
  unfoldable pub apply_circuit_status : List ObjectData → PoolMonitor F → PoolMonitor F
  unfolding process_circuits cleanup
  apply_circuit_status objs m =
      cleanup m.active_circuit_keys m.active_feature_keys
        (process_circuits objs (record m { active_circuit_keys = []; active_feature_keys = [] }))
