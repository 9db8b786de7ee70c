-- ===== src/Monitor/Exported.antt =====
-- What `applyCircuitStatus` leaves in the gauge of the circuits.
use pentameter.Prelude.{
  String, Bool, true, false, some, List, [], ◌∷◌, ◌++◌, ◌≡◌, ◌≢◌, refl, ap, ◌∙◌, arith, Bool-cases,
  Option-cases, inl, inr, if◌then◌else◌, All,
}
use pentameter.Prelude.Int.{ℤ}
use pentameter.Prelude.Map.{Map, lookup_or}
use pentameter.Prelude.Float.{Floats}
use pentameter.IntelliCenter.Types.{ObjectData}
use pentameter.IntelliCenter.Parse.{param}
use pentameter.Monitor.Gauge.{Gauge, Labels, value, eq_labels→eq, value-delete}
use pentameter.Monitor.State.{PoolMonitor}
use pentameter.Monitor.Stale.{metric_key, split_key, delete_split, cleanup_stale_metrics}
use pentameter.Monitor.Series.{split_key-some}
use pentameter.Monitor.Status.{
  calculate_circuit_status_value, get_regular_circuit_status, get_heater_circuit_status,
}
use pentameter.Monitor.Pumps.{apply_pump_delivery_gate}
use pentameter.Monitor.Circuits.{
  process_circuit_object, process_circuits, cleanup, apply_circuit_status,
}
use pentameter.Monitor.Written.{
  circuit_value, series_of, key_of, IsReported, circuit_value-process_circuit_object,
  value-process_circuit_object, active-process_circuit_object, value-process_circuit_object_self,
  active-process_circuit_object_self,
}

module _ (objnam name subtype : String) where
  abbrev series : Labels
  series = objnam ∷ name ∷ subtype ∷ []

  abbrev series_key : String
  series_key = metric_key objnam name subtype

  -- The deletion for another key leaves the series alone.
  value-delete_split_ne :
      (key : String) (g : Gauge ℤ)
      → key ≢ series_key
      → value series (delete_split (split_key key) g) ≡ value series g
  value-delete_split_ne key g other = elim (Option-cases (split_key key)) [
    | inl nothing ↦ rw nothing refl
    | inr (l, cut) ↦
        let (a, b, c, parts, whole, clean) = split_key-some key l cut in
        let ne : l ≢ series = λ le. ground (arith, le, parts, whole, other) in
        rw cut (ground (arith, value-delete series l g, eq_labels→eq l series))
  ]

  -- The cleanup keeps a series whose key is active.
  pub value-cleanup_active :
      (previous current : Map Bool) (g : Gauge ℤ)
      → lookup_or false series_key current ≡ true
      → value series (cleanup_stale_metrics previous current g) ≡ value series g
  unfolding cleanup_stale_metrics
  value-cleanup_active [] current g active = refl
  value-cleanup_active ((key, was) ∷ previous) current g active =
      let g' = if lookup_or false key current then g else delete_split (split_key key) g in
      value-cleanup_active previous current g' active
      ∙ elim (Bool-cases (lookup_or false key current)) [
        | inl kept ↦ rw kept refl
        | inr stale ↦ rw stale (
            value-delete_split_ne key g
              (λ same. cc (stale, active, ap (λ t. lookup_or false t current) same)))
      ]

module _ {F : Type 0} ⦃fl : Floats F⦄ where
  -- Objects of other ids leave a series and its key alone.
  value-process_circuits :
      (o : ObjectData) (objs : List ObjectData) (m : PoolMonitor F)
      → All (λ (x : ObjectData). x.obj_name ≢ o.obj_name) objs
      → value (series_of o) (process_circuits objs m).circuit_status
        ≡ value (series_of o) m.circuit_status
  unfolding process_circuits
  value-process_circuits o [] m h = refl
  value-process_circuits o (x ∷ objs) m h =
      value-process_circuits o objs (process_circuit_object x m) h.1
      ∙ value-process_circuit_object o x m h.0

  active-process_circuits :
      (key : String) (objs : List ObjectData) (m : PoolMonitor F)
      → lookup_or false key m.active_circuit_keys ≡ true
      → lookup_or false key (process_circuits objs m).active_circuit_keys ≡ true
  unfolding process_circuits
  active-process_circuits key [] m h = h
  active-process_circuits key (x ∷ objs) m h =
      active-process_circuits key objs (process_circuit_object x m)
        (active-process_circuit_object key x m h)

  module _ (o : ObjectData) (later : List ObjectData) (reported : IsReported o) where
    process_circuits-IsReported :
        (before : List ObjectData) (m : PoolMonitor F)
        → All (λ (x : ObjectData). x.obj_name ≢ o.obj_name) later
        → let m' = process_circuits (before ++ o ∷ later) m in
          (value (series_of o) m'.circuit_status ≡ some (circuit_value m o))
          × (lookup_or false (key_of o) m'.active_circuit_keys ≡ true)
    unfolding process_circuits
    process_circuits-IsReported [] m last = (
      value-process_circuits o later (process_circuit_object o m) last
          ∙ value-process_circuit_object_self o m reported,
      active-process_circuits (key_of o) later (process_circuit_object o m)
          (active-process_circuit_object_self o m reported),
    )
    process_circuits-IsReported (x ∷ before) m last =
        let (here, active) = process_circuits-IsReported before (process_circuit_object x m) last in
        (here ∙ ap some (circuit_value-process_circuit_object o x m), active)

    -- After an update, the gauge of a circuit that has a name and a status, and is no feature and no
    -- generic AUX circuit, has the value computed from the state before the update, if no later
    -- object has its id: no other object, and no cleanup of a stale series, changes it.
    pub apply_circuit_status-IsReported :
        (before : List ObjectData) (m : PoolMonitor F)
        → All (λ (x : ObjectData). x.obj_name ≢ o.obj_name) later
        → value (series_of o) (apply_circuit_status (before ++ o ∷ later) m).circuit_status
          ≡ some (circuit_value m o)
    unfolding apply_circuit_status cleanup calculate_circuit_status_value get_regular_circuit_status
        get_heater_circuit_status apply_pump_delivery_gate
    apply_circuit_status-IsReported before m last =
        let fresh : PoolMonitor F = record m {
          active_circuit_keys = [];
          active_feature_keys = [];
        } in
        let m' = process_circuits (before ++ o ∷ later) fresh in
        let (here, active) = process_circuits-IsReported before fresh last in
        value-cleanup_active o.obj_name (param "SNAME" o.params) (param "SUBTYP" o.params)
          m.active_circuit_keys m'.active_circuit_keys m'.circuit_status active
        ∙ here
