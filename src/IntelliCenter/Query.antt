-- ===== src/IntelliCenter/Query.antt =====
-- The typed queries of intellicenter/query.go.
use pentameter.Prelude.{String, Bool, List, [], ◌∷◌, ◌==◌, ◌||◌, if◌then◌else◌}
use pentameter.Prelude.Int.{pos}
use pentameter.Prelude.Map.{lookup_or}
use pentameter.Prelude.Float.{Floats}
use pentameter.IntelliCenter.Types.{Circuit, Body, Pump, Heater, Sensor, Response, ObjectData}
use pentameter.IntelliCenter.Parse.{
  param, circuit_keys, body_keys, pump_keys, heater_keys, sensor_keys, circuit_from, body_from,
  pump_from, heater_from, sensor_from,
}
use pentameter.IntelliCenter.Result.{Result, ok, err}
use pentameter.IntelliCenter.Client.{Client, query, round_trip, request, keys_of}

-- The loops of the queries: objects that `skip` names are left out, the others are parsed.
unfoldable pub parse_all :
    {A : Type 0} → (ObjectData → Bool) → (ObjectData → A) → List ObjectData → List A
parse_all skip parse [] = []
parse_all skip parse (o ∷ objs) =
    let rest = parse_all skip parse objs in if skip o then rest else parse o ∷ rest

listed :
    {A : Type 0}
    → (ObjectData → Bool)
    → (ObjectData → A)
    → Result (List ObjectData) × Client
    → Result (List A) × Client
unfolding parse_all
listed skip parse (ok objs, c) = (ok (parse_all skip parse objs), c)
listed skip parse (err e, c) = (err e, c)

unfoldable pub nameless : ObjectData → Bool
unfolding lookup_or
nameless o = param "SNAME" o.params == ""

unfoldable pub nameless_or_mute : ObjectData → Bool
unfolding lookup_or
nameless_or_mute o = (param "SNAME" o.params == "") || (param "STATUS" o.params == "")

unfoldable pub circuits : Client → Result (List Circuit) × Client
unfolding query listed nameless_or_mute circuit_from
circuits c =
    listed nameless_or_mute (λ o. circuit_from o.obj_name o.params)
      (query "circuits" "OBJTYP=CIRCUIT" circuit_keys c)

unfoldable pub heaters : Client → Result (List Heater) × Client
unfolding query listed nameless heater_from
heaters c =
    listed nameless (λ o. heater_from o.obj_name o.params)
      (query "heaters" "OBJTYP=HEATER" heater_keys c)

module _ {F : Type 0} ⦃fl : Floats F⦄ where
  unfoldable pub bodies : Client → Result (List (Body F)) × Client
  unfolding query listed nameless body_from
  bodies c =
      listed nameless (λ o. body_from o.obj_name o.params)
        (query "bodies" "OBJTYP=BODY" body_keys c)

  unfoldable pub pumps : Client → Result (List (Pump F)) × Client
  unfolding query listed nameless pump_from
  pumps c =
      listed nameless (λ o. pump_from o.obj_name o.params) (query "pumps" "OBJTYP=PUMP" pump_keys c)

  -- The first object of that name, or a sensor with no reading.
  unfoldable pub find_sensor : String → List ObjectData → Sensor F
  unfolding sensor_from
  find_sensor objnam [] = record {
    id = objnam;
    name = "";
    sub_type = "";
    temp = fl.of_int (pos 0);
    valid = Bool.false;
  }
  find_sensor objnam (o ∷ objs) =
      let rest = find_sensor objnam objs in
      if o.obj_name == objnam then sensor_from o.obj_name o.params else rest

  found_sensor : String → Result Response × Client → Result (Sensor F) × Client
  unfolding find_sensor
  found_sensor objnam (ok resp, c) = (ok (find_sensor objnam resp.object_list), c)
  found_sensor objnam (err e, c) = (err e, c)

  unfoldable pub sensor : String → Client → Result (Sensor F) × Client
  unfolding round_trip found_sensor
  sensor objnam c =
      found_sensor objnam
        (round_trip "sensor" (request "GetParamList" "" (keys_of objnam sensor_keys ∷ [])) c)
