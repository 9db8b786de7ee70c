-- ===== src/Monitor/Watch.antt =====
-- What listen mode remembers of the equipment, and the lines that it logs: `EquipmentState` of
-- main.go and the functions named `track…`. A line is given by what it reports, not by its text; the
-- log is in the order in which it is written.
pub mod Notices
pub mod Groups
use Prim.Native.String.{◌++◌ as concat}
use pentameter.Prelude.{
  ℕ, ◌+◌, String, Bool, true, false, Option, none, some, List, [], ◌∷◌, ◌++◌, ◌==◌, ◌&&◌, ◌||◌, not,
  if◌then◌else◌,
}
use pentameter.Prelude.Int.{ℤ, pos, eqb_ℤ}
use pentameter.Prelude.Map.{Map, lookup, insert, lookup_or}
use pentameter.Prelude.Float.{Floats}
use pentameter.Prelude.Text.{has_prefix}
use pentameter.IntelliCenter.Types.{ObjectData}
use pentameter.IntelliCenter.Json.{Fields}
use pentameter.IntelliCenter.Parse.{param}

-- `CircGrpState`: one member of a circuit group.
pub record CircGrpState : Type 0 where
  pub active : String
  pub use_of : String
  pub circuit : String
  pub parent : String

-- What a line says of one piece of equipment.
pub data Reading (F : Type 0) : Type 0 where
  water_temp pump_rpm : String → F → Reading F
  air_temp : F → Reading F
  circuit_state feature_state : String → String → Reading F
  thermal_state : String → ℤ → Reading F
  -- the name, the id and the type, then the tracked text
  unknown_state : String → String → String → String → Reading F

-- What `buildCircGrpChanges` lists.
pub data GroupChange : Type 0 where
  act_changed use_changed : String → String → GroupChange

-- What a line says of a pushed object.
pub data Pushed : Type 0 where
  -- the name, then what the line lists of the params
  body_pushed : String → String → String → String → String → Pushed
  pump_pushed circ_grp_pushed : String → String → String → String → Pushed
  heater_pushed : String → String → String → Pushed
  circuit_pushed : String → String → Pushed
  pump_failed : String → Pushed
  unknown_pushed : ObjectData → Pushed

pub data Line (F : Type 0) : Type 0 where
  detected : Reading F → Line F
  changed : Reading F → Reading F → Line F
  -- the names of the group and of the circuit, then the member's state or its changes
  circ_grp_detected : String → String → CircGrpState → Line F
  circ_grp_changed : String → String → List GroupChange → Line F
  -- the object as JSON
  raw : ObjectData → Line F
  -- a temperature that does not parse, and a feature that is hidden
  parse_failed feature_skipped : String → Line F
  circuit_groups_failed all_objects_failed no_changes : Line F
  pushed : Pushed → Line F
  -- a message, or an entry of it, as JSON
  push_message : Fields → Line F

pub record EquipmentState (F : Type 0) : Type 0 where
  pub water_temps : Map F
  pub pump_rpms : Map F
  pub circuits : Map String
  pub thermals : Map ℤ
  pub features : Map String
  pub circ_grps : Map CircGrpState
  pub unknown_equip : Map String
  pub parse_errors : Map Bool
  pub skipped_features : Map Bool
  pub air : F
  pub poll_change_count : ℕ

-- The fields of `PoolMonitor` that listen mode uses, with the lines logged so far.
pub record Watch (F : Type 0) : Type 0 where
  pub listen_mode : Bool
  pub previous_state : Option (EquipmentState F)
  pub initial_poll_done : Bool
  pub lines : List (Line F)

abbrev pub new_watch : {F : Type 0} → Bool → Watch F
new_watch listen = record {
  listen_mode = listen;
  previous_state = none;
  initial_poll_done = false;
  lines = [];
}

module _ {F : Type 0} {V : Type 0} (reading : V → Reading F) where
  -- A line for the value and the lines behind it, if the value is new in the first poll or differs
  -- from the one before; and the number of changes, 0 or 1.
  unfoldable pub report : Bool → (V → V → Bool) → List (Line F) → Option V → V → List (Line F) × ℕ
  report done same behind none v = (if done then [] else detected (reading v) ∷ behind, 0)
  report done same behind (some prev) v =
      if same prev v then ([], 0) else (changed (reading prev) (reading v) ∷ behind, 1)

-- `resolveCircuitName`, by the table of names
unfoldable pub resolve_circuit_name : Map String → String → String
unfolding lookup_or
resolve_circuit_name names id = let name = lookup_or "" id names in if name == "" then id else name

-- `buildCircGrpChanges`
unfoldable pub build_circ_grp_changes : CircGrpState → CircGrpState → List GroupChange
build_circ_grp_changes prev new =
    (if prev.active == new.active then [] else act_changed prev.active new.active ∷ [])
    ++ (if prev.use_of == new.use_of then [] else use_changed prev.use_of new.use_of ∷ [])

module _ {F : Type 0} where
  abbrev pub report_changes : String → String → List GroupChange → List (Line F) × ℕ
  report_changes group circuit [] = ([], 0)
  report_changes group circuit (c ∷ cs) = (circ_grp_changed group circuit (c ∷ cs) ∷ [], 1)

  -- The lines on a member of a group that is new, or whose state or use has changed; the changes of
  -- two equal states are none.
  unfoldable pub report_circ_grp :
      Bool → String → String → Option CircGrpState → CircGrpState → List (Line F) × ℕ
  report_circ_grp done group circuit none new =
      (if done then [] else circ_grp_detected group circuit new ∷ [], 0)
  report_circ_grp done group circuit (some prev) new =
      report_changes group circuit (build_circ_grp_changes prev new)

  -- The next state of the equipment, with the lines of a report: `logPollChangef` counts.
  abbrev pub noted :
      (EquipmentState F → EquipmentState F)
      → List (Line F) × ℕ
      → EquipmentState F
      → Watch F
      → Watch F
  noted store (ls, n) s w = record w {
    previous_state = some (record (store s) { poll_change_count = s.poll_change_count + n });
    lines = w.lines ++ ls;
  }

  unfoldable pub logged : Line F → Watch F → Watch F
  logged l w = record w { lines = w.lines ++ l ∷ [] }

module _ {F : Type 0} ⦃fl : Floats F⦄ where
  -- `initializeState`
  abbrev pub initial_state : EquipmentState F
  initial_state = record {
    water_temps = [];
    pump_rpms = [];
    circuits = [];
    thermals = [];
    features = [];
    circ_grps = [];
    unknown_equip = [];
    parse_errors = [];
    skipped_features = [];
    air = fl.of_int (pos 0);
    poll_change_count = 0;
  }

  -- The state, initialised if there is none.
  abbrev pub state_of : Option (EquipmentState F) → EquipmentState F
  state_of none = initial_state
  state_of (some s) = s

  -- A tracker does nothing outside listen mode.
  abbrev pub listening : (EquipmentState F → Watch F → Watch F) → Watch F → Watch F
  listening track w = if w.listen_mode then track (state_of w.previous_state) w else w

  -- What the trackers share: the value is reported, by the state and the flag of the first poll, and
  -- stored.
  unfoldable pub noting :
      (EquipmentState F → Bool → List (Line F) × ℕ)
      → (EquipmentState F → EquipmentState F)
      → Watch F
      → Watch F
  noting reported store = listening (λ s w. noted store (reported s w.initial_poll_done) s w)

  unfoldable pub track :
      {V : Type 0}
      → (V → Reading F)
      → (V → V → Bool)
      → List (Line F)
      → (EquipmentState F → Option V)
      → (EquipmentState F → EquipmentState F)
      → V
      → Watch F
      → Watch F
  unfolding noting report
  track reading same behind prev store v =
      noting (λ s done. report reading done same behind (prev s) v) store

  unfoldable pub track_water_temp : String → F → ObjectData → Watch F → Watch F
  track_water_temp name temp obj =
      track (water_temp name) fl.eq (raw obj ∷ []) (λ s. lookup name s.water_temps)
        (λ s. record s { water_temps = insert name temp s.water_temps }) temp

  -- `trackAirTemp`, which takes the temperature 0 for none.
  unfoldable pub track_air_temp : F → ObjectData → Watch F → Watch F
  track_air_temp temp obj =
      track air_temp fl.eq (raw obj ∷ [])
        (λ s. if fl.eq s.air (fl.of_int (pos 0)) then none else some s.air)
        (λ s. record s { air = temp }) temp

  unfoldable pub track_pump_rpm : String → F → ObjectData → Watch F → Watch F
  track_pump_rpm name rpm obj =
      track (pump_rpm name) fl.eq (raw obj ∷ []) (λ s. lookup name s.pump_rpms)
        (λ s. record s { pump_rpms = insert name rpm s.pump_rpms }) rpm

  unfoldable pub track_circuit : String → String → ObjectData → Watch F → Watch F
  track_circuit name status obj =
      track (circuit_state name) (λ a b. a == b) (raw obj ∷ []) (λ s. lookup name s.circuits)
        (λ s. record s { circuits = insert name status s.circuits }) status

  unfoldable pub track_thermal : String → ℤ → ObjectData → Watch F → Watch F
  track_thermal name status obj =
      track (thermal_state name) eqb_ℤ (raw obj ∷ []) (λ s. lookup name s.thermals)
        (λ s. record s { thermals = insert name status s.thermals }) status

  unfoldable pub track_feature : String → String → Watch F → Watch F
  track_feature name status =
      track (feature_state name) (λ a b. a == b) [] (λ s. lookup name s.features)
        (λ s. record s { features = insert name status s.features }) status
