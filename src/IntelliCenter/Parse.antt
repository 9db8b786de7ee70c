-- ===== src/IntelliCenter/Parse.antt =====
-- intellicenter/parse.go, and parseFloat and parseInt of intellicenter/query.go.
use pentameter.Prelude.{String, List, [], ◌∷◌, ◌==◌, ◌||◌, not, if◌then◌else◌}
use pentameter.Prelude.Int.{ℤ, pos}
use pentameter.Prelude.Map.{Map, lookup_or}
use pentameter.Prelude.Float.{Floats}
use pentameter.Prelude.Text.{atoi}
use pentameter.IntelliCenter.Types.{Circuit, Body, Pump, Heater, Sensor}

-- The key sets of the queries.
abbrev pub circuit_keys : List String
circuit_keys = "SNAME" ∷ "STATUS" ∷ "OBJTYP" ∷ "SUBTYP" ∷ "FREEZE" ∷ "FEATR" ∷ []

abbrev pub body_keys : List String
body_keys = "SNAME" ∷ "STATUS" ∷ "TEMP" ∷ "SUBTYP" ∷ "HTMODE" ∷ "HTSRC" ∷ "LOTMP" ∷ "HITMP" ∷ []

abbrev pub pump_keys : List String
pump_keys = "SNAME" ∷ "STATUS" ∷ "RPM" ∷ "MAX" ∷ "PWR" ∷ "WATTS" ∷ "GPM" ∷ "MAXF" ∷ []

abbrev pub heater_keys : List String
heater_keys = "SNAME" ∷ "STATUS" ∷ "SUBTYP" ∷ "OBJTYP" ∷ "BODY" ∷ "COOL" ∷ []

abbrev pub sensor_keys : List String
sensor_keys = "SNAME" ∷ "PROBE" ∷ "SUBTYP" ∷ "STATUS" ∷ []

abbrev pub pmp_circ_keys : List String
pmp_circ_keys = "CIRCUIT" ∷ "PARENT" ∷ []

-- `params[key]`
abbrev pub param : String → Map String → String
param key params = lookup_or "" key params

unfoldable pub parse_int : String → ℤ
unfolding atoi
parse_int s = let (n, ok) = atoi s in if ok then n else pos 0

unfoldable pub circuit_from : String → Map String → Circuit
unfolding lookup_or
circuit_from objnam params = record {
  id = objnam;
  name = param "SNAME" params;
  obj_type = param "OBJTYP" params;
  sub_type = param "SUBTYP" params;
  on = param "STATUS" params == "ON";
  freeze = param "FREEZE" params == "ON";
  feature = param "FEATR" params == "ON";
}

unfoldable pub heater_from : String → Map String → Heater
unfolding lookup_or
heater_from objnam params =
    let status = param "STATUS" params in
    record {
      id = objnam;
      name = param "SNAME" params;
      on = status == "ON";
      sub_type = param "SUBTYP" params;
      body = param "BODY" params;
      cool = param "COOL" params == "ON";
      real = (status == "ON") || (status == "OFF");
    }

module _ {F : Type 0} ⦃fl : Floats F⦄ where
  unfoldable pub parse_float : String → F
  parse_float s = let (f, ok) = fl.parse s in if ok then f else fl.of_int (pos 0)

  unfoldable pub body_from : String → Map String → Body F
  unfolding lookup_or parse_float parse_int
  body_from objnam params = record {
    id = objnam;
    name = param "SNAME" params;
    on = param "STATUS" params == "ON";
    temp = parse_float (param "TEMP" params);
    heat_mode = parse_int (param "HTMODE" params);
    heater_id = param "HTSRC" params;
    lo_set_temp = parse_float (param "LOTMP" params);
    hi_set_temp = parse_float (param "HITMP" params);
  }

  -- The power under PWR, and that under WATTS where PWR is zero.
  watts_from : Map String → F
  unfolding lookup_or parse_float
  watts_from params =
      let watts = parse_float (param "PWR" params) in
      if fl.eq watts (fl.of_int (pos 0)) then parse_float (param "WATTS" params) else watts

  unfoldable pub pump_from : String → Map String → Pump F
  unfolding lookup_or parse_float watts_from
  pump_from objnam params =
      let rpm = parse_float (param "RPM" params) in
      record {
        id = objnam;
        name = param "SNAME" params;
        on = fl.lt (fl.of_int (pos 0)) rpm;
        rpm = rpm;
        max_rpm = parse_float (param "MAX" params);
        watts = watts_from params;
        gpm = parse_float (param "GPM" params);
        max_flow = parse_float (param "MAXF" params);
      }

  unfoldable pub sensor_from : String → Map String → Sensor F
  unfolding lookup_or parse_float
  sensor_from objnam params =
      let probe = param "PROBE" params in
      record {
        id = objnam;
        name = param "SNAME" params;
        sub_type = param "SUBTYP" params;
        temp = parse_float probe;
        valid = not (probe == "");
      }
