-- ===== src/Monitor/Features.antt =====
-- What `applyCircuitStatus` leaves in the gauge of the features.
use text.Mathlib.TextPositions.{eq_refl}
use pentameter.Prelude.{
  String, Bool, true, false, Option, some, List, [], ◌∷◌, ◌++◌, ◌==◌, ◌≡◌, ◌≢◌, refl, ap, ◌∙◌,
  arith, eq_iff, All,
}
use pentameter.Prelude.Int.{ℤ}
use pentameter.Prelude.Map.{Map, lookup, insert, lookup_or, lookup_or-insert}
use pentameter.Prelude.Float.{Floats}
use pentameter.Prelude.Text.{has_prefix}
use pentameter.IntelliCenter.Types.{ObjectData}
use pentameter.IntelliCenter.Parse.{param}
use pentameter.Monitor.Gauge.{value, set, eq_labels→eq, eq_labels_refl, value-set}
use pentameter.Monitor.Watch.{track_feature}
use pentameter.Monitor.State.{PoolMonitor}
use pentameter.Monitor.Status.{get_regular_circuit_status}
use pentameter.Monitor.Pumps.{apply_pump_delivery_gate}
use pentameter.Monitor.Circuits.{
  visible, is_valid_circuit, process_feature_object, process_visible_feature, process_plain_circuit,
  process_circuit_object, process_circuits, cleanup, apply_circuit_status,
}
use pentameter.Monitor.Written.{series_of, key_of, named, if_same, process_circuit_object_same}
use pentameter.Monitor.Exported.{value-cleanup_active}

-- What the monitor computes for a feature.
abbrev pub feature_value : {F : Type 0} → PoolMonitor F → ObjectData → ℤ
feature_value m o =
    get_regular_circuit_status m (param "STATUS" o.params) o.obj_name
      (param "FREEZE" o.params == "ON")

-- A feature that has a name and a status and is not hidden by the config.
abbrev pub IsShown : Map String → ObjectData → Type 0
IsShown config o =
    (param "SNAME" o.params ≢ "")
    × (param "STATUS" o.params ≢ "")
    × (has_prefix o.obj_name "FTR" ≡ true)
    × (visible (lookup o.obj_name config) ≡ true)

module _ {F : Type 0} ⦃fl : Floats F⦄ where
  feature_value-process_circuit_object :
      (o x : ObjectData) (m : PoolMonitor F)
      → (feature_value (process_circuit_object x m) o ≡ feature_value m o)
        × ((process_circuit_object x m).feature_config ≡ m.feature_config)
  unfolding process_feature_object process_visible_feature process_plain_circuit
      get_regular_circuit_status apply_pump_delivery_gate
  feature_value-process_circuit_object o x m =
      let shown = visible (lookup x.obj_name m.feature_config) in
      let valid = is_valid_circuit x.obj_name (param "SNAME" x.params) (param "SUBTYP" x.params) in
      let view : PoolMonitor F → ℤ = λ n. feature_value n o in
      let config : PoolMonitor F → Map String = λ n. n.feature_config in
      (
        process_circuit_object_same view x m refl (if_same view shown refl refl)
            (if_same view valid refl refl),
        process_circuit_object_same config x m refl (if_same config shown refl refl)
            (if_same config valid refl refl),
      )

  value-process_circuit_object_other :
      (o x : ObjectData) (m : PoolMonitor F)
      → x.obj_name ≢ o.obj_name
      → value (series_of o) (process_circuit_object x m).feature_status
        ≡ value (series_of o) m.feature_status
  unfolding process_feature_object process_visible_feature process_plain_circuit
  value-process_circuit_object_other o x m other =
      let view : PoolMonitor F → Option ℤ = λ n. value (series_of o) n.feature_status in
      process_circuit_object_same view x m refl
        (if_same view (visible (lookup x.obj_name m.feature_config))
          (ground (
            arith,
            value-set (series_of o) (series_of x) (feature_value (named x m) x) m.feature_status,
            eq_labels→eq (series_of x) (series_of o),
            other,
          ))
          refl)
        (if_same view
          (is_valid_circuit x.obj_name (param "SNAME" x.params) (param "SUBTYP" x.params)) refl
          refl)

  active-process_circuit_object_any :
      (key : String) (x : ObjectData) (m : PoolMonitor F)
      → lookup_or false key m.active_feature_keys ≡ true
      → lookup_or false key (process_circuit_object x m).active_feature_keys ≡ true
  unfolding process_feature_object process_visible_feature process_plain_circuit
  active-process_circuit_object_any key x m active =
      let view : PoolMonitor F → Bool = λ n. lookup_or false key n.active_feature_keys in
      process_circuit_object_same view x m active
        (if_same view (visible (lookup x.obj_name m.feature_config))
          (ground (arith, lookup_or-insert false (key_of x) key true m.active_feature_keys)) active)
        (if_same view
          (is_valid_circuit x.obj_name (param "SNAME" x.params) (param "SUBTYP" x.params)) active
          active)

  -- What a shown feature does to the monitor.
  process_circuit_object-IsShown :
      (o : ObjectData) (m : PoolMonitor F)
      → IsShown m.feature_config o
      → process_circuit_object o m ≡ record (named o m) {
        feature_status = set (series_of o) (feature_value (named o m) o) m.feature_status;
        active_feature_keys = insert (key_of o) true m.active_feature_keys;
        watch = track_feature (param "SNAME" o.params) (param "STATUS" o.params) m.watch;
      }
  unfolding process_circuit_object process_feature_object process_visible_feature
  process_circuit_object-IsShown o m h =
      ground (arith, eq_iff (param "SNAME" o.params) "", eq_iff (param "STATUS" o.params) "")

  process_circuit_object_self :
      (o : ObjectData) (m : PoolMonitor F)
      → IsShown m.feature_config o
      → (value (series_of o) (process_circuit_object o m).feature_status ≡ some (feature_value m o))
        × (lookup_or false (key_of o) (process_circuit_object o m).active_feature_keys ≡ true)
  unfolding get_regular_circuit_status apply_pump_delivery_gate
  process_circuit_object_self o m h = rw (process_circuit_object-IsShown o m h) (
    rw (value-set (series_of o) (series_of o) (feature_value (named o m) o) m.feature_status)
        (rw (eq_labels_refl (series_of o)) refl),
    ground (
      arith,
      lookup_or-insert false (key_of o) (key_of o) true m.active_feature_keys,
      eq_refl (key_of o),
    ),
  )

  -- Objects of other ids leave a series and its key alone.
  process_circuits-others :
      (o : ObjectData) (objs : List ObjectData) (m : PoolMonitor F)
      → All (λ (x : ObjectData). x.obj_name ≢ o.obj_name) objs
      → lookup_or false (key_of o) m.active_feature_keys ≡ true
      → (value (series_of o) (process_circuits objs m).feature_status
          ≡ value (series_of o) m.feature_status)
        × (lookup_or false (key_of o) (process_circuits objs m).active_feature_keys ≡ true)
  unfolding process_circuits
  process_circuits-others o [] m h active = (refl, active)
  process_circuits-others o (x ∷ objs) m (other, others) active =
      let (same, kept) =
        process_circuits-others o objs (process_circuit_object x m) others
          (active-process_circuit_object_any (key_of o) x m active) in
      (same ∙ value-process_circuit_object_other o x m other, kept)

  module _ (o : ObjectData) (later : List ObjectData) where
    process_circuits-IsShown :
        (before : List ObjectData) (m : PoolMonitor F)
        → IsShown m.feature_config o
        → All (λ (x : ObjectData). x.obj_name ≢ o.obj_name) later
        → let m' = process_circuits (before ++ o ∷ later) m in
          (value (series_of o) m'.feature_status ≡ some (feature_value m o))
          × (lookup_or false (key_of o) m'.active_feature_keys ≡ true)
    unfolding process_circuits
    process_circuits-IsShown [] m shown last =
        let (here, active) = process_circuit_object_self o m shown in
        let (same, kept) =
          process_circuits-others o later (process_circuit_object o m) last active in
        (same ∙ here, kept)
    process_circuits-IsShown (x ∷ before) m (named_o, stated, feature, seen) last =
        let (value_same, config_same) = feature_value-process_circuit_object o x m in
        let (here, active) =
          process_circuits-IsShown before (process_circuit_object x m)
            (named_o, stated, feature, ap (λ c. visible (lookup o.obj_name c)) config_same ∙ seen)
            last in
        (here ∙ ap some value_same, active)

    -- After an update, the gauge of a feature that has a name and a status and is not hidden by the
    -- config has the value computed from the state before the update, if no later object has its id:
    -- no other object, and no cleanup of a stale series, changes it.
    pub apply_circuit_status-IsShown :
        (before : List ObjectData) (m : PoolMonitor F)
        → IsShown m.feature_config o
        → All (λ (x : ObjectData). x.obj_name ≢ o.obj_name) later
        → value (series_of o) (apply_circuit_status (before ++ o ∷ later) m).feature_status
          ≡ some (feature_value m o)
    unfolding apply_circuit_status cleanup get_regular_circuit_status apply_pump_delivery_gate
    apply_circuit_status-IsShown before m shown last =
        let fresh : PoolMonitor F = record m {
          active_circuit_keys = [];
          active_feature_keys = [];
        } in
        let m' = process_circuits (before ++ o ∷ later) fresh in
        let (here, active) = process_circuits-IsShown before fresh shown last in
        value-cleanup_active o.obj_name (param "SNAME" o.params) (param "SUBTYP" o.params)
          m.active_feature_keys m'.active_feature_keys m'.feature_status active
        ∙ here
