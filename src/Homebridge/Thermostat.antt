-- ===== src/Homebridge/Thermostat.antt =====
-- The commands of the shim: `hbApplySets`, `hbApplyThermostat`, `hbHeatSourceFor` and `hbVerifyBody`
-- of homebridge.go, over the engine and its request client.
use pentameter.Prelude.{String, Bool, true, false, Option, none, some, ◌==◌, if◌then◌else◌}
use pentameter.Prelude.Map.{lookup}
use pentameter.Prelude.Float.{Floats}
use pentameter.Prelude.Text.{itoa}
use pentameter.IntelliCenter.Types.{Body}
use pentameter.IntelliCenter.Result.{Result}
use pentameter.IntelliCenter.Client.{Client}
use pentameter.IntelliCenter.Control.{
  set_circuit, set_heat_setpoint, set_cool_setpoint, set_heat_source, heat_source_none,
}
use pentameter.IntelliCenter.Engine.{Engine, Snapshot}
use pentameter.IntelliCenter.Engine.Scan.{with_req_client, refresh_body}
use pentameter.Homebridge.Convert.{c_to_f}
use pentameter.Homebridge.Items.{real_heaters_by_body}

-- `hbSet`
pub record Command (F : Type 0) : Type 0 where
  pub t : String
  pub id : String
  pub on : Bool
  pub heat_c : Option F
  pub cool_c : Option F
  pub mode : String

-- The closure `write`: a field is written only if the wanted value differs from the current one.
-- The flag says whether any write was attempted.
unfoldable pub write_field :
    String
    → String
    → (Client → Result (Unit {0}) × Client)
    → Bool × Option Client
    → Bool × Option Client
unfolding with_req_client
write_field want cur call (attempted, c) =
    if want == cur then (attempted, c) else (true, (with_req_client call c).1)

module _ {F : Type 0} where
  -- `hbHeatSourceFor`
  unfoldable pub heat_source_for : Snapshot F → String → String → Option String
  unfolding real_heaters_by_body lookup
  heat_source_for snap id mode =
      if mode == "on"
      then elim (lookup id (real_heaters_by_body snap.heaters)) [ none ↦ none | some h ↦ some h.id ]
      else some heat_source_none

module _ {F : Type 0} ⦃fl : Floats F⦄ where
  -- The three fields of a command, each over what the ones before it did.
  unfoldable pub write_heat :
      String → Option F → Body F → Bool × Option Client → Bool × Option Client
  write_heat id none body s = s
  write_heat id (some c) body s =
      let temp_f = c_to_f c in
      write_field (itoa temp_f) (itoa (fl.to_int body.lo_set_temp)) (set_heat_setpoint id temp_f) s

  unfoldable pub write_cool :
      String → Option F → Body F → Bool × Option Client → Bool × Option Client
  write_cool id none body s = s
  write_cool id (some c) body s =
      let temp_f = c_to_f c in
      write_field (itoa temp_f) (itoa (fl.to_int body.hi_set_temp)) (set_cool_setpoint id temp_f) s

  unfoldable pub write_source :
      String → Option String → Body F → Bool × Option Client → Bool × Option Client
  write_source id none body s = s
  write_source id (some src) body s = write_field src body.heater_id (set_heat_source id src) s

  -- `hbVerifyBody`: the body is read again, if there is a connection.
  unfoldable pub verify_body : String → Engine F → Option Client → Engine F × Option Client
  verify_body id e none = (e, none)
  verify_body id e (some c) = let (result, c', e') = refresh_body id c e in (e', some c')

  unfoldable pub verify_if : String → Engine F → Bool × Option Client → Engine F × Option Client
  unfolding verify_body
  verify_if id e (attempted, c) = if attempted then verify_body id e c else (e, c)

  -- `hbApplyThermostat`
  unfoldable pub apply_thermostat : Command F → Engine F → Option Client → Engine F × Option Client
  apply_thermostat cmd e c = elim (lookup cmd.id e.snap.bodies) [
    | none ↦ (e, c)
    | some body ↦
        let source = if cmd.mode == "" then none else heat_source_for e.snap cmd.id cmd.mode in
        verify_if cmd.id e (
          write_source cmd.id source body
            (write_cool cmd.id cmd.cool_c body (write_heat cmd.id cmd.heat_c body (false, c))))
  ]

  -- One round of `hbApplySets`.
  unfoldable pub apply_set : Command F → Engine F → Option Client → Engine F × Option Client
  unfolding apply_thermostat with_req_client
  apply_set cmd e c =
      if cmd.t == "set"
      then (e, (with_req_client (set_circuit cmd.id cmd.on) c).1)
      else if cmd.t == "tset"
      then apply_thermostat cmd e c
      else (e, c)
