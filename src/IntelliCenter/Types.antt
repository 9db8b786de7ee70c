-- ===== src/IntelliCenter/Types.antt =====
-- intellicenter/types.go: the domain types, the kinds of equipment, and the wire types.
-- A `float64` field has the carrier `F`; see Prelude/Float.antt.
use pentameter.Prelude.{String, Bool, true, false, List, ◌&&◌, ◌==◌, ◌≡◌, arith, eq_iff}
use pentameter.Prelude.Int.{ℤ, eqb_ℤ}
use pentameter.Prelude.Map.{Map}
use pentameter.Prelude.Float.{Floats}

-- One object's params in a response.
pub record ObjectData : Type 0 where
  pub obj_name : String
  pub params : Map String

pub record Response : Type 0 where
  pub command : String
  pub message_id : String
  pub response : String
  pub object_list : List ObjectData

-- One entry in a request's object list: keys for a query, params for a write.
pub record Object : Type 0 where
  pub obj_name : String
  pub keys : List String
  pub params : Map String

pub record Request : Type 0 where
  pub message_id : String
  pub command : String
  pub condition : String
  pub object_list : List Object

pub record Circuit : Type 0 where
  pub id : String
  pub name : String
  pub obj_type : String
  pub sub_type : String
  pub on : Bool
  pub freeze : Bool
  pub feature : Bool

pub record Body (F : Type 0) : Type 0 where
  pub id : String
  pub name : String
  pub on : Bool
  pub temp : F
  pub heat_mode : ℤ
  pub heater_id : String
  pub lo_set_temp : F
  pub hi_set_temp : F

pub record Pump (F : Type 0) : Type 0 where
  pub id : String
  pub name : String
  pub on : Bool
  pub rpm : F
  pub max_rpm : F
  pub watts : F
  pub gpm : F
  pub max_flow : F

pub record Heater : Type 0 where
  pub id : String
  pub name : String
  pub on : Bool
  pub sub_type : String
  pub body : String
  pub cool : Bool
  pub real : Bool

pub record Sensor (F : Type 0) : Type 0 where
  pub id : String
  pub name : String
  pub sub_type : String
  pub temp : F
  pub valid : Bool

pub data Kind : Type 0 where
  circuit body pump heater sensor pmpcirc : Kind

-- The string that a kind is in the source; it prefixes the message ids of a scan.
abbrev pub kind_name : Kind → String
kind_name circuit = "circuit"
kind_name body = "body"
kind_name pump = "pump"
kind_name heater = "heater"
kind_name sensor = "sensor"
kind_name pmpcirc = "pmpcirc"

-- `==` on `bool`
abbrev pub eq_bool : Bool → Bool → Bool
eq_bool true b = b
eq_bool false true = false
eq_bool false false = true

-- `==` on the structs, field by field.
unfoldable pub eq_circuit : Circuit → Circuit → Bool
eq_circuit a b =
    (a.id == b.id)
    && ((a.name == b.name)
        && ((a.obj_type == b.obj_type)
            && ((a.sub_type == b.sub_type)
                && (eq_bool a.on b.on
                    && (eq_bool a.freeze b.freeze && eq_bool a.feature b.feature)))))

unfoldable pub eq_heater : Heater → Heater → Bool
eq_heater a b =
    (a.id == b.id)
    && ((a.name == b.name)
        && (eq_bool a.on b.on
            && ((a.sub_type == b.sub_type)
                && ((a.body == b.body) && (eq_bool a.cool b.cool && eq_bool a.real b.real)))))

module _ {F : Type 0} ⦃fl : Floats F⦄ where
  unfoldable pub eq_body : Body F → Body F → Bool
  eq_body a b =
      (a.id == b.id)
      && ((a.name == b.name)
          && (eq_bool a.on b.on
              && (fl.eq a.temp b.temp
                  && (eqb_ℤ a.heat_mode b.heat_mode
                      && ((a.heater_id == b.heater_id)
                          && (fl.eq a.lo_set_temp b.lo_set_temp
                              && fl.eq a.hi_set_temp b.hi_set_temp))))))

  unfoldable pub eq_pump : Pump F → Pump F → Bool
  eq_pump a b =
      (a.id == b.id)
      && ((a.name == b.name)
          && (eq_bool a.on b.on
              && (fl.eq a.rpm b.rpm
                  && (fl.eq a.max_rpm b.max_rpm
                      && (fl.eq a.watts b.watts
                          && (fl.eq a.gpm b.gpm && fl.eq a.max_flow b.max_flow))))))

  unfoldable pub eq_sensor : Sensor F → Sensor F → Bool
  eq_sensor a b =
      (a.id == b.id)
      && ((a.name == b.name)
          && ((a.sub_type == b.sub_type) && (fl.eq a.temp b.temp && eq_bool a.valid b.valid)))

-- `==` on circuits and heaters, which hold no float, is equality.
pub eq_circuit→eq : (a b : Circuit) → eq_circuit a b ≡ true → a ≡ b
unfolding eq_circuit
eq_circuit→eq a b h = ground (
  arith,
  eq_iff a.id b.id,
  eq_iff a.name b.name,
  eq_iff a.obj_type b.obj_type,
  eq_iff a.sub_type b.sub_type,
)

pub eq_heater→eq : (a b : Heater) → eq_heater a b ≡ true → a ≡ b
unfolding eq_heater
eq_heater→eq a b h = ground (
  arith,
  eq_iff a.id b.id,
  eq_iff a.name b.name,
  eq_iff a.sub_type b.sub_type,
  eq_iff a.body b.body,
)
