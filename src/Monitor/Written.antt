-- ===== src/Monitor/Written.antt =====
-- What one object of `processCircuitObject` does to the gauge of the circuits.
use text.Mathlib.TextPositions.{eq_refl}
use pentameter.Prelude.{
  String, Bool, true, false, Option, some, [], ◌∷◌, ◌≡◌, ◌≢◌, refl, ◌==◌, ◌||◌, arith, eq_iff,
  if◌then◌else◌,
}
use pentameter.Prelude.Int.{ℤ}
use pentameter.Prelude.Map.{lookup, insert, lookup_or, lookup_or-insert}
use pentameter.Prelude.Float.{Floats}
use pentameter.Monitor.Watch.{track_circuit}
use pentameter.Prelude.Text.{has_prefix}
use pentameter.IntelliCenter.Types.{ObjectData}
use pentameter.IntelliCenter.Parse.{param}
use pentameter.Monitor.Gauge.{Labels, value, set, eq_labels→eq, eq_labels_refl, value-set}
use pentameter.Monitor.State.{PoolMonitor}
use pentameter.Monitor.Stale.{metric_key}
use pentameter.Monitor.Status.{
  calculate_circuit_status_value, get_regular_circuit_status, get_heater_circuit_status,
}
use pentameter.Monitor.Pumps.{apply_pump_delivery_gate}
use pentameter.Monitor.Circuits.{
  is_valid_circuit, visible, process_feature_object, process_visible_feature, process_plain_circuit,
  process_circuit_object,
}

-- What the monitor computes for a circuit.
abbrev pub circuit_value : {F : Type 0} → PoolMonitor F → ObjectData → ℤ
circuit_value m o =
    calculate_circuit_status_value m (param "SNAME" o.params) (param "STATUS" o.params) o.obj_name
      (param "FREEZE" o.params == "ON")

abbrev pub series_of : ObjectData → Labels
series_of o = o.obj_name ∷ param "SNAME" o.params ∷ param "SUBTYP" o.params ∷ []

abbrev pub key_of : ObjectData → String
key_of o = metric_key o.obj_name (param "SNAME" o.params) (param "SUBTYP" o.params)

-- A circuit, not a feature, that has a name and a status and is no generic AUX circuit.
abbrev pub IsReported : ObjectData → Type 0
IsReported o =
    (param "SNAME" o.params ≢ "")
    × (param "STATUS" o.params ≢ "")
    × (has_prefix o.obj_name "FTR" ≡ false)
    × (is_valid_circuit o.obj_name (param "SNAME" o.params) (param "SUBTYP" o.params) ≡ true)

-- The monitor with the name of an object noted.
abbrev pub named : {F : Type 0} → ObjectData → PoolMonitor F → PoolMonitor F
named x m = record m { circuit_names = insert x.obj_name (param "SNAME" x.params) m.circuit_names }

-- A view of a choice that is the same on both sides.
pub if_same :
    {A B : Type 0} (view : A → B) {z : B} (b : Bool) {x y : A}
    → view x ≡ z
    → view y ≡ z
    → view (if b then x else y) ≡ z
if_same view true h k = h
if_same view false h k = k

module _ {F : Type 0} ⦃fl : Floats F⦄ where
  -- A view that no write of a circuit or feature changes is not changed by an object.
  pub process_circuit_object_same :
      {B : Type 0} (view : PoolMonitor F → B) {z : B} (x : ObjectData) (m : PoolMonitor F)
      → view m ≡ z
      → view (
          process_feature_object x
            (param "SNAME" x.params)
            (param "STATUS" x.params)
            (param "SUBTYP" x.params)
            (param "FREEZE" x.params == "ON")
            (named x m))
        ≡ z
      → view (
          process_plain_circuit x
            (param "SNAME" x.params)
            (param "STATUS" x.params)
            (param "SUBTYP" x.params)
            (param "FREEZE" x.params == "ON")
            (named x m))
        ≡ z
      → view (process_circuit_object x m) ≡ z
  unfolding process_circuit_object
  process_circuit_object_same view x m unnamed feature plain =
      if_same view ((param "SNAME" x.params == "") || (param "STATUS" x.params == "")) unnamed
        (if_same view (has_prefix x.obj_name "FTR") feature plain)

  -- The value of a circuit does not depend on the circuits before it.
  pub circuit_value-process_circuit_object :
      (o x : ObjectData) (m : PoolMonitor F)
      → circuit_value (process_circuit_object x m) o ≡ circuit_value m o
  unfolding process_feature_object process_visible_feature process_plain_circuit
      calculate_circuit_status_value get_regular_circuit_status get_heater_circuit_status
      apply_pump_delivery_gate
  circuit_value-process_circuit_object o x m =
      let view : PoolMonitor F → ℤ = λ n. circuit_value n o in
      process_circuit_object_same view x m refl
        (if_same view (visible (lookup x.obj_name m.feature_config)) refl refl)
        (if_same view
          (is_valid_circuit x.obj_name (param "SNAME" x.params) (param "SUBTYP" x.params)) refl
          refl)

  pub value-process_circuit_object :
      (o x : ObjectData) (m : PoolMonitor F)
      → x.obj_name ≢ o.obj_name
      → value (series_of o) (process_circuit_object x m).circuit_status
        ≡ value (series_of o) m.circuit_status
  unfolding process_feature_object process_visible_feature process_plain_circuit
  value-process_circuit_object o x m other =
      let view : PoolMonitor F → Option ℤ = λ n. value (series_of o) n.circuit_status in
      process_circuit_object_same view x m refl
        (if_same view (visible (lookup x.obj_name m.feature_config)) refl refl)
        (if_same view
          (is_valid_circuit x.obj_name (param "SNAME" x.params) (param "SUBTYP" x.params))
          (ground (
            arith,
            value-set (series_of o) (series_of x) (circuit_value (named x m) x) m.circuit_status,
            eq_labels→eq (series_of x) (series_of o),
            other,
          ))
          refl)

  pub active-process_circuit_object :
      (key : String) (x : ObjectData) (m : PoolMonitor F)
      → lookup_or false key m.active_circuit_keys ≡ true
      → lookup_or false key (process_circuit_object x m).active_circuit_keys ≡ true
  unfolding process_feature_object process_visible_feature process_plain_circuit
  active-process_circuit_object key x m active =
      let view : PoolMonitor F → Bool = λ n. lookup_or false key n.active_circuit_keys in
      process_circuit_object_same view x m active
        (if_same view (visible (lookup x.obj_name m.feature_config)) active active)
        (if_same view
          (is_valid_circuit x.obj_name (param "SNAME" x.params) (param "SUBTYP" x.params))
          (ground (arith, lookup_or-insert false (key_of x) key true m.active_circuit_keys)) active)

  -- What a reported circuit does to the monitor.
  process_circuit_object-IsReported :
      (o : ObjectData) (m : PoolMonitor F)
      → IsReported o
      → process_circuit_object o m ≡ record (named o m) {
        circuit_status = set (series_of o) (circuit_value (named o m) o) m.circuit_status;
        active_circuit_keys = insert (key_of o) true m.active_circuit_keys;
        watch = track_circuit (param "SNAME" o.params) (param "STATUS" o.params) o m.watch;
      }
  unfolding process_circuit_object process_plain_circuit
  process_circuit_object-IsReported o m h =
      ground (arith, eq_iff (param "SNAME" o.params) "", eq_iff (param "STATUS" o.params) "")

  pub value-process_circuit_object_self :
      (o : ObjectData) (m : PoolMonitor F)
      → IsReported o
      → value (series_of o) (process_circuit_object o m).circuit_status ≡ some (circuit_value m o)
  unfolding calculate_circuit_status_value get_regular_circuit_status get_heater_circuit_status
      apply_pump_delivery_gate
  value-process_circuit_object_self o m h = rw (process_circuit_object-IsReported o m h) (
      rw (value-set (series_of o) (series_of o) (circuit_value (named o m) o) m.circuit_status)
        (rw (eq_labels_refl (series_of o)) refl))

  pub active-process_circuit_object_self :
      (o : ObjectData) (m : PoolMonitor F)
      → IsReported o
      → lookup_or false (key_of o) (process_circuit_object o m).active_circuit_keys ≡ true
  active-process_circuit_object_self o m h = rw (process_circuit_object-IsReported o m h) (
      ground (
        arith,
        lookup_or-insert false (key_of o) (key_of o) true m.active_circuit_keys,
        eq_refl (key_of o),
      ))
