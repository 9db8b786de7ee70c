-- ===== src/IntelliCenter/Engine/Scan.antt =====
-- `scan`, `scanPumpCircuits`, `querySensor` and `RefreshBody` of engine.go, over the request client.
use pentameter.Prelude.{
  String, true, Option, none, some, List, [], ◌∷◌, ◌==◌, ◌&&◌, ◌||◌, not, if◌then◌else◌,
}
use pentameter.Prelude.Map.{Map, lookup_or}
use pentameter.Prelude.Float.{Floats}
use pentameter.IntelliCenter.Types.{
  Kind, circuit, body, pump, heater, sensor, pmpcirc, kind_name, ObjectData, Response,
}
use pentameter.IntelliCenter.Parse.{
  param, circuit_keys, body_keys, pump_keys, heater_keys, sensor_keys, pmp_circ_keys,
}
use pentameter.IntelliCenter.Result.{Result, ok, err, engine_not_connected}
use pentameter.IntelliCenter.Client.{Client, query, round_trip, request, keys_of}
use pentameter.IntelliCenter.Engine.{Engine, apply, apply_and_emit}

pub record ScanGroup : Type 0 where
  pub kind : Kind
  pub cond : String
  pub keys : List String

abbrev pub scan_groups : List ScanGroup
scan_groups =
    record { kind = circuit; cond = "OBJTYP=CIRCUIT"; keys = circuit_keys }
    ∷ record { kind = body; cond = "OBJTYP=BODY"; keys = body_keys }
    ∷ record { kind = pump; cond = "OBJTYP=PUMP"; keys = pump_keys }
    ∷ record { kind = heater; cond = "OBJTYP=HEATER"; keys = heater_keys }
    ∷ []

abbrev pub air_sensor_objnam : String
air_sensor_objnam = "_A135"

-- `querySensor`: the params of the first object of that name.
unfoldable pub find_params : String → List ObjectData → Option (Map String)
find_params objnam [] = none
find_params objnam (o ∷ objs) =
    let rest = find_params objnam objs in if o.obj_name == objnam then some o.params else rest

unfoldable pub sensor_params : String → Result Response × Client → Option (Map String) × Client
unfolding find_params
sensor_params objnam (ok resp, c) = (find_params objnam resp.object_list, c)
sensor_params objnam (err e, c) = (none, c)

unfoldable pub query_sensor : String → Client → Option (Map String) × Client
unfolding sensor_params
query_sensor objnam c =
    sensor_params objnam
      (round_trip "sensor" (request "GetParamList" "" (keys_of objnam sensor_keys ∷ [])) c)

module _ {F : Type 0} ⦃fl : Floats F⦄ where
  -- The inner loop of `scan`: objects without an SNAME are left out.
  unfoldable pub apply_named : Kind → List ObjectData → Engine F → Engine F
  unfolding lookup_or
  apply_named k [] e = e
  apply_named k (o ∷ objs) e =
      apply_named k objs
        (if param "SNAME" o.params == "" then e else apply_and_emit k o.obj_name o.params e)

  -- The loop over the groups, which the first failing query ends.
  unfoldable pub scan_each :
      List ScanGroup → Client → Engine F → Result (Unit {0}) × Client × Engine F
  scan_each [] c e = (ok tt, c, e)
  scan_each (g ∷ groups) c e =
      let (result, c') = query (kind_name g.kind) g.cond g.keys c in
      elim result [
        | err failure ↦ (err failure, c', e)
        | ok objs ↦ scan_each groups c' (apply_named g.kind objs e)
      ]

  unfoldable pub apply_sensor : Option (Map String) → Engine F → Engine F
  apply_sensor none e = e
  apply_sensor (some params) e = apply_and_emit sensor air_sensor_objnam params e

  -- The end of `scan`: the air sensor, whose failure is ignored.
  unfoldable pub scan_sensor :
      Result (Unit {0}) × Client × Engine F → Result (Unit {0}) × Client × Engine F
  unfolding apply_sensor
  scan_sensor (err failure, c, e) = (err failure, c, e)
  scan_sensor (ok _, c, e) =
      let (found, c') = query_sensor air_sensor_objnam c in (ok tt, c', apply_sensor found e)

  -- `Engine.scan`
  unfoldable pub scan : Client → Engine F → Result (Unit {0}) × Client × Engine F
  unfolding scan_each scan_sensor apply_named
  scan c e = scan_sensor (scan_each scan_groups c e)

  -- The loop of `scanPumpCircuits`.
  unfoldable pub apply_links : List ObjectData → Engine F → Engine F
  unfolding lookup_or
  apply_links [] e = e
  apply_links (o ∷ objs) e = apply_links objs (
      if (param "CIRCUIT" o.params == "") || (param "PARENT" o.params == "")
      then e
      else apply_and_emit pmpcirc o.obj_name o.params e)

  unfoldable pub linked : Result (List ObjectData) × Client → Engine F → Client × Engine F
  unfolding apply_links
  linked (ok objs, c) e = (c, apply_links objs e)
  linked (err failure, c) e = (c, e)

  -- `Engine.scanPumpCircuits`
  unfoldable pub scan_pump_circuits : Client → Engine F → Client × Engine F
  unfolding linked
  scan_pump_circuits c e = linked (query (kind_name pmpcirc) "OBJTYP=PMPCIRC" pmp_circ_keys c) e

  -- The loop of `RefreshBody`: the first named object of that id is applied by force.
  unfoldable pub refresh_from : String → List ObjectData → Engine F → Engine F
  unfolding lookup_or
  refresh_from id [] e = e
  refresh_from id (o ∷ objs) e =
      let rest = refresh_from id objs e in
      if (o.obj_name == id) && not (param "SNAME" o.params == "")
      then apply body id o.params true e
      else rest

  unfoldable pub refreshed :
      String → Result (List ObjectData) × Client → Engine F → Result (Unit {0}) × Client × Engine F
  unfolding refresh_from
  refreshed id (ok objs, c) e = (ok tt, c, refresh_from id objs e)
  refreshed id (err failure, c) e = (err failure, c, e)

  -- `Engine.RefreshBody`, over a client; without one it is `withReqClient` that fails.
  unfoldable pub refresh_body : String → Client → Engine F → Result (Unit {0}) × Client × Engine F
  unfolding refreshed
  refresh_body id c e = refreshed id (query (kind_name body) "OBJTYP=BODY" body_keys c) e

-- `Engine.withReqClient`: a call of the request client, if the engine has one.
unfoldable pub with_req_client :
    {A : Type 0} → (Client → Result A × Client) → Option Client → Result A × Option Client
with_req_client f none = (err engine_not_connected, none)
with_req_client f (some c) = let (result, c') = f c in (result, some c')
