-- ===== src/Homebridge/Publish.antt =====
-- What the sidecar tells the shim: `hbPublisher`, `accessorySignature`, `hbForwardChanges` and the
-- connection sensor of `hbRun`, in homebridge.go.
use Prim.Native.String.{◌++◌ as concat}
use text.Mathlib.TextPositions.{eq_refl}
use pentameter.Prelude.{
  String, Bool, true, false, some, List, [], ◌∷◌, ◌++◌, ◌==◌, ◌&&◌, not, ◌≡◌, arith, eq_iff,
  if◌then◌else◌,
}
use pentameter.Prelude.Int.{pos}
use pentameter.Prelude.Float.{Floats}
use pentameter.IntelliCenter.Types.{Body, eq_bool}
use pentameter.IntelliCenter.Engine.{
  Snapshot, Change, circuit_change, body_change, pump_change, heater_change, sensor_change, nothing,
}
use pentameter.Homebridge.Convert.{f_to_c, f_to_c_step}
use pentameter.Homebridge.Items.{
  AccessoryKind, switch, lightbulb, thermostat, light_sensor, occupancy, temp_sensor, Accessory,
  plain, all_items, body_heat_state,
}

-- The messages to the shim.
pub data Message (F : Type 0) : Type 0 where
  accessories : List (Accessory F) → Message F
  ready : Message F
  state : String → Bool → Message F
  lstate : String → F → Message F
  sstate : String → F → Message F
  tstate : Accessory F → Message F

pub record Publisher : Type 0 where
  pub published : Bool
  pub last_sig : String

abbrev pub new_publisher : Publisher
new_publisher = record { published = false; last_sig = "" }

abbrev pub kind_text : AccessoryKind → String
kind_text switch = "switch"
kind_text lightbulb = "lightbulb"
kind_text thermostat = "thermostat"
kind_text light_sensor = "lightsensor"
kind_text occupancy = "occupancy"
kind_text temp_sensor = "tempsensor"

module _ {F : Type 0} where
  -- One line of the signature.
  unfoldable pub signature_line : Accessory F → String
  signature_line it = concat it.id (
      concat "|" (
        concat it.name (
          concat "|"
            (concat (kind_text it.kind) (concat "|" (if it.can_cool then "c\n" else "\n"))))))

  -- `accessorySignature`
  unfoldable pub accessory_signature : List (Accessory F) → String
  unfolding signature_line
  accessory_signature [] = ""
  accessory_signature (it ∷ items) = concat (signature_line it) (accessory_signature items)

module _ {F : Type 0} ⦃fl : Floats F⦄ where
  -- `announce`
  unfoldable pub announce : Snapshot F → Publisher → List (Message F) × Publisher
  announce snap p =
      let items = all_items snap in
      (
        accessories items ∷ ready ∷ [],
        record { published = true; last_sig = accessory_signature items },
      )

  -- `resync`: the accessories again if their signature changed since they were announced.
  unfoldable pub resync : Snapshot F → Publisher → List (Message F) × Publisher
  resync snap p =
      let items = all_items snap in
      let sig = accessory_signature items in
      if p.published && not (sig == p.last_sig)
      then (accessories items ∷ [], record p { last_sig = sig })
      else ([], p)

  -- `thermostatStateFromBody`
  unfoldable pub thermostat_state_from_body : Body F → Accessory F
  unfolding f_to_c f_to_c_step body_heat_state
  thermostat_state_from_body b = record (plain b.id "" thermostat false) {
    cur_c = some (f_to_c b.temp);
    heat_c = some (f_to_c_step b.lo_set_temp);
    cool_c = some (f_to_c_step b.hi_set_temp);
    state = body_heat_state b;
  }

  -- The messages of `hbForwardChanges` for one change.
  unfoldable pub messages_of : Change F → List (Message F)
  unfolding thermostat_state_from_body f_to_c
  messages_of (circuit_change c) = state c.id c.on ∷ []
  messages_of (body_change b) = tstate (thermostat_state_from_body b) ∷ []
  messages_of (pump_change p) =
      lstate (concat p.id ".rpm") p.rpm
      ∷ lstate (concat p.id ".watts") p.watts
      ∷ ((if fl.lt (fl.of_int (pos 0)) p.max_flow
            then lstate (concat p.id ".gpm") p.gpm ∷ []
            else [])
          ++ state (concat p.id ".run") p.on ∷ [])
  messages_of (heater_change h) = []
  messages_of (sensor_change s) = if s.valid then sstate s.id (f_to_c s.temp) ∷ [] else []
  messages_of nothing = []

  -- `hbForwardChanges`: nothing before the accessories are announced.
  unfoldable pub forward_change : Publisher → Change F → List (Message F)
  unfolding messages_of
  forward_change p c = if p.published then messages_of c else []

  -- A second resync over the same snapshot sends nothing and changes nothing, and neither does a
  -- resync after an announcement of the snapshot.
  pub resync-quiet :
      (snap : Snapshot F) (p : Publisher)
      → (resync snap (resync snap p).1 ≡ ([], (resync snap p).1))
        × (resync snap (announce snap p).1 ≡ ([], (announce snap p).1))
  unfolding resync announce
  resync-quiet snap p =
      let sig = accessory_signature (all_items snap) in
      (ground (arith, eq_iff sig p.last_sig, eq_refl sig), ground (arith, eq_refl sig))

-- The variables of the closure in `hbRun` that reports the connection.
pub record ConnWatch : Type 0 where
  pub last_conn : Bool
  pub first_scan : Bool

abbrev pub new_conn_watch : ConnWatch
new_conn_watch = record { last_conn = false; first_scan = true }

module _ {F : Type 0} where
  -- `OnScan`: the result of a scan is reported if it is the first or differs from the last.
  unfoldable pub on_scan : Bool → Publisher → ConnWatch → List (Message F) × ConnWatch
  on_scan connected p w = if not w.first_scan && eq_bool connected w.last_conn then ([], w) else (
    (if p.published then state "_conn" connected ∷ [] else []),
    record { last_conn = connected; first_scan = false },
  )
