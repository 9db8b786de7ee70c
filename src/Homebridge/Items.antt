-- ===== src/Homebridge/Items.antt =====
-- The accessories of an engine's snapshot: `hbAllItems` of homebridge.go and the lists it joins.
use Prim.Native.String.{◌++◌ as concat, compare}
use Prim.Native.Nat.{Ordering}
use pentameter.Prelude.{
  String, Bool, true, false, Option, none, some, List, [], ◌∷◌, ◌++◌, ◌==◌, ◌||◌, not, any,
  if◌then◌else◌,
}
use pentameter.Prelude.Int.{pos, leb_ℤ, eqb_ℤ}
use pentameter.Prelude.Map.{Map, lookup, insert, keys}
use pentameter.Prelude.Float.{Floats}
use pentameter.Prelude.Text.{to_upper, trim_space, fields}
use pentameter.IntelliCenter.Types.{Circuit, Body, Pump, Heater, Sensor}
use pentameter.IntelliCenter.Engine.{Snapshot}
use pentameter.Homebridge.Convert.{f_to_c, f_to_c_step}

pub data AccessoryKind : Type 0 where
  switch lightbulb thermostat light_sensor occupancy temp_sensor : AccessoryKind

pub record Accessory (F : Type 0) : Type 0 where
  pub id : String
  pub name : String
  pub kind : AccessoryKind
  pub on : Bool
  pub cur_c : Option F
  pub heat_c : Option F
  pub cool_c : Option F
  pub can_cool : Bool
  pub state : String
  pub lux : Option F

-- An accessory with no field beyond its identity and state.
abbrev pub plain : {F : Type 0} → String → String → AccessoryKind → Bool → Accessory F
plain id name kind on = record {
  id = id;
  name = name;
  kind = kind;
  on = on;
  cur_c = none;
  heat_c = none;
  cool_c = none;
  can_cool = false;
  state = "";
  lux = none;
}

-- `a <= b` on strings, which `sort.Strings` goes by.
abbrev pub le_text : String → String → Bool
le_text a b = elim (compare a b) [ Ordering.gt ↦ false | _ ↦ true ]

unfoldable pub insert_sorted : String → List String → List String
insert_sorted a [] = a ∷ []
insert_sorted a (b ∷ bs) =
    let rest = insert_sorted a bs in if le_text a b then a ∷ b ∷ bs else b ∷ rest

-- `sort.Strings`; the keys of a map are distinct, so every sorting gives the same list.
unfoldable pub sort : List String → List String
unfolding insert_sorted
sort [] = []
sort (a ∷ as') = insert_sorted a (sort as')

-- The values of a map in the order of their keys, as every list here takes them.
module _ {V : Type 0} where
  unfoldable pub values_at : List String → Map V → List V
  unfolding lookup
  values_at [] m = []
  values_at (k ∷ ks) m = elim (lookup k m) [ none ↦ values_at ks m | some v ↦ v ∷ values_at ks m ]

  unfoldable pub by_id : Map V → List V
  unfolding values_at sort
  by_id m = values_at (sort (keys m)) m

-- `isLightSubType`
unfoldable pub is_light_sub_type : String → Bool
unfolding to_upper trim_space
is_light_sub_type subtype =
    let s = to_upper (trim_space subtype) in
    any (λ t. t == s)
      ("LIGHT" ∷ "INTELLI" ∷ "GLOW" ∷ "GLOWT" ∷ "MAGIC2" ∷ "DIMMER" ∷ "LITSHO" ∷ "COLOR" ∷ "CLRCASC"
        ∷ [])

-- The heater of each body of a list that has none yet.
unfoldable pub serve : Heater → List String → Map Heater → Map Heater
serve h [] out = out
serve h (b ∷ bodies) out =
    serve h bodies (elim (lookup b out) [ none ↦ insert b h out | some other ↦ out ])

-- The loop of `realHeatersByBody` over the heaters by id: pseudo heaters are left out.
unfoldable pub serve_all : List Heater → Map Heater → Map Heater
unfolding serve
serve_all [] out = out
serve_all (h ∷ hs) out = serve_all hs (if h.real then serve h (fields h.body) out else out)

unfoldable pub real_heaters_by_body : Map Heater → Map Heater
unfolding serve_all by_id
real_heaters_by_body heaters = serve_all (by_id heaters) []

module _ {F : Type 0} where
  -- `bodyHeatState`
  unfoldable pub body_heat_state : Body F → String
  body_heat_state b =
      if (b.heater_id == "") || (b.heater_id == "00000")
      then "off"
      else if eqb_ℤ b.heat_mode (pos 9)
      then "cool"
      else if leb_ℤ (pos 1) b.heat_mode
      then "heat"
      else "idle"

  -- `hbCircuitItems`: the circuits that are flagged as features
  unfoldable pub circuit_items_of : List Circuit → List (Accessory F)
  circuit_items_of [] = []
  circuit_items_of (c ∷ cs) =
      let rest = circuit_items_of cs in
      if c.feature
      then plain c.id c.name (if is_light_sub_type c.sub_type then lightbulb else switch) c.on
        ∷ rest
      else rest

  -- `hbFreezeItems`: the first circuit of the freeze subtype
  unfoldable pub freeze_items_of : List Circuit → List (Accessory F)
  freeze_items_of [] = []
  freeze_items_of (c ∷ cs) =
      let rest = freeze_items_of cs in
      if c.sub_type == "FRZ" then plain c.id "Freeze Protection" occupancy c.on ∷ [] else rest

  -- `hbPumpRunningItems`
  unfoldable pub pump_running_items_of : List (Pump F) → List (Accessory F)
  pump_running_items_of [] = []
  pump_running_items_of (p ∷ ps) =
      plain (concat p.id ".run") (concat p.name " Running") occupancy p.on
      ∷ pump_running_items_of ps

module _ {F : Type 0} ⦃fl : Floats F⦄ where
  -- `hbSensorItems`: the valid sensors with a name
  unfoldable pub sensor_items_of : List (Sensor F) → List (Accessory F)
  unfolding f_to_c
  sensor_items_of [] = []
  sensor_items_of (s ∷ ss) =
      let rest = sensor_items_of ss in
      if not s.valid || (s.name == "")
      then rest
      else record (plain s.id s.name temp_sensor false) { cur_c = some (f_to_c s.temp) } ∷ rest

  -- One metric of a pump, as the lux of a light sensor.
  abbrev metric : Pump F → String → String → F → Accessory F
  metric p suffix label v =
      record (plain (concat p.id suffix) (concat p.name label) light_sensor false) { lux = some v }

  -- `hbPumpSensorItems`: the flow only of a pump that can measure one
  unfoldable pub pump_sensor_items_of : List (Pump F) → List (Accessory F)
  pump_sensor_items_of [] = []
  pump_sensor_items_of (p ∷ ps) =
      metric p ".rpm" " RPM" p.rpm
      ∷ metric p ".watts" " Watts" p.watts
      ∷ ((if fl.lt (fl.of_int (pos 0)) p.max_flow then metric p ".gpm" " GPM" p.gpm ∷ [] else [])
          ++ pump_sensor_items_of ps)

  -- The thermostat of a body with a real heater.
  unfoldable pub thermostat_item : Body F → Heater → Accessory F
  unfolding body_heat_state f_to_c f_to_c_step
  thermostat_item b h = record {
    id = b.id;
    name = b.name;
    kind = thermostat;
    on = false;
    cur_c = some (f_to_c b.temp);
    heat_c = some (f_to_c_step b.lo_set_temp);
    cool_c = if h.cool then some (f_to_c_step b.hi_set_temp) else none;
    can_cool = h.cool;
    state = body_heat_state b;
    lux = none;
  }

  -- `hbThermostatItems`, over the ids of the bodies in order
  unfoldable pub thermostat_items_at : List String → Map (Body F) → Map Heater → List (Accessory F)
  unfolding thermostat_item lookup
  thermostat_items_at [] bodies heaters = []
  thermostat_items_at (id ∷ ids) bodies heaters =
      let rest = thermostat_items_at ids bodies heaters in
      elim (lookup id heaters) [
        | none ↦ rest
        | some h ↦ elim (lookup id bodies) [ none ↦ rest | some b ↦ thermostat_item b h ∷ rest ]
      ]

  -- `hbAllItems`
  unfoldable pub all_items : Snapshot F → List (Accessory F)
  unfolding by_id sort real_heaters_by_body circuit_items_of thermostat_items_at
      pump_sensor_items_of pump_running_items_of sensor_items_of freeze_items_of
  all_items s =
      circuit_items_of (by_id s.circuits)
      ++ (thermostat_items_at (sort (keys s.bodies)) s.bodies (real_heaters_by_body s.heaters)
          ++ (pump_sensor_items_of (by_id s.pumps)
              ++ (pump_running_items_of (by_id s.pumps)
                  ++ (sensor_items_of (by_id s.sensors)
                      ++ (freeze_items_of (by_id s.circuits)
                          ++ (plain "_conn" "Pool Controller Online" occupancy true ∷ []))))))
