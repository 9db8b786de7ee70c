-- ===== src/Monitor/Pumps.antt =====
-- The pumps and what they drive: `applyPumpData`, `processPumpObject`, `applyPumpAssociations` and
-- `applyPumpDeliveryGate` of main.go.
use pentameter.Prelude.{
  String, Bool, true, false, List, [], ◌∷◌, ◌++◌, ◌==◌, ◌||◌, any, if◌then◌else◌,
}
use pentameter.Prelude.Int.{ℤ, pos, eqb_ℤ}
use pentameter.Prelude.Map.{Map, insert, lookup_or}
use pentameter.Prelude.Float.{Floats}
use pentameter.IntelliCenter.Types.{ObjectData}
use pentameter.IntelliCenter.Parse.{param}
use pentameter.Monitor.Gauge.{set}
use pentameter.Monitor.Watch.{track_pump_rpm}
use pentameter.Monitor.State.{PoolMonitor}

-- `slices.Contains`
unfoldable pub member : String → List String → Bool
member x [] = false
member x (y ∷ ys) = (y == x) || member x ys

-- One link of the loop of `applyPumpAssociations`.
unfoldable pub add_link : ObjectData → Map (List String) → Map (List String)
add_link obj assoc =
    let circuit = param "CIRCUIT" obj.params in
    let pump = param "PARENT" obj.params in
    let pumps = lookup_or [] circuit assoc in
    if (circuit == "") || (pump == "")
    then assoc
    else if member pump pumps
    then assoc
    else insert circuit (pumps ++ pump ∷ []) assoc

unfoldable pub add_links : List ObjectData → Map (List String) → Map (List String)
add_links [] assoc = assoc
add_links (o ∷ objs) assoc = add_links objs (add_link o assoc)

abbrev pub circuit_status_off : ℤ
circuit_status_off = pos 0

abbrev pub circuit_status_on : ℤ
circuit_status_on = pos 1

abbrev pub circuit_status_freeze_protected : ℤ
circuit_status_freeze_protected = pos 2

abbrev is_empty : List String → Bool
is_empty [] = true
is_empty (x ∷ xs) = false

module _ {F : Type 0} where
  -- `applyPumpAssociations`
  unfoldable pub apply_pump_associations : List ObjectData → PoolMonitor F → PoolMonitor F
  unfolding add_links
  apply_pump_associations objs m = record m { circuit_to_pumps = add_links objs [] }

  -- `applyPumpDeliveryGate`
  unfoldable pub apply_pump_delivery_gate : PoolMonitor F → String → ℤ → ℤ
  apply_pump_delivery_gate m obj_name status =
      let pumps = lookup_or [] obj_name m.circuit_to_pumps in
      if eqb_ℤ status circuit_status_off
      then status
      else if is_empty pumps
      then status
      else if any (λ p. lookup_or false p m.pump_running) pumps
      then status
      else circuit_status_off

module _ {F : Type 0} ⦃fl : Floats F⦄ where
  -- `processPumpObject`; its error is only logged.
  unfoldable pub process_pump_object : ObjectData → PoolMonitor F → PoolMonitor F
  unfolding lookup_or
  process_pump_object obj m =
      let name = param "SNAME" obj.params in
      let rpm_str = param "RPM" obj.params in
      let (rpm, parsed) = fl.parse rpm_str in
      if (rpm_str == "") || (name == "")
      then m
      else if parsed
      then record m {
        pump_rpm = set (obj.obj_name ∷ name ∷ []) rpm m.pump_rpm;
        pump_running = insert obj.obj_name (fl.lt (fl.of_int (pos 0)) rpm) m.pump_running;
        watch = track_pump_rpm name rpm obj m.watch;
      }
      else m

  unfoldable pub process_pumps : List ObjectData → PoolMonitor F → PoolMonitor F
  unfolding process_pump_object
  process_pumps [] m = m
  process_pumps (o ∷ objs) m = process_pumps objs (process_pump_object o m)

  -- `applyPumpData`
  unfoldable pub apply_pump_data : List ObjectData → PoolMonitor F → PoolMonitor F
  unfolding process_pumps
  apply_pump_data objs m = process_pumps objs (record m { pump_running = [] })
