-- ===== src/Homebridge/Settle.antt =====
-- A setpoint that comes back from HomeKit is not written again.
use pentameter.Prelude.{
  String, Bool, false, Option, none, some, ◌==◌, if◌then◌else◌, ◌≡◌, refl, arith, eq_iff, ap, ◌⊎◌,
  inl, inr,
}
use pentameter.Prelude.Map.{lookup}
use pentameter.Prelude.Float.{Floats}
use pentameter.Prelude.Text.{itoa}
use pentameter.IntelliCenter.Types.{Body}
use pentameter.IntelliCenter.Client.{Client}
use pentameter.IntelliCenter.Result.{Result}
use pentameter.IntelliCenter.Control.{set_heat_source}
use pentameter.IntelliCenter.Engine.{Engine}
use pentameter.Homebridge.Convert.{c_to_f}
use pentameter.Homebridge.Thermostat.{
  Command, write_field, write_heat, write_cool, write_source, verify_if, heat_source_for,
  apply_thermostat,
}

write_field-same :
    (want cur : String) (call : Client → Result (Unit {0}) × Client) (s : Bool × Option Client)
    → want ≡ cur
    → write_field want cur call s ≡ s
unfolding write_field
write_field-same want cur call (attempted, c) same = ground (arith, eq_iff want cur)

module _ {F : Type 0} ⦃fl : Floats F⦄ where
  -- A field that is not in the command, or that has the value that the body already has.
  abbrev pub Settled : Option F → F → Type 0
  Settled none current = Unit
  Settled (some wanted) current = c_to_f wanted ≡ fl.to_int current

  abbrev pub SettledSource : Command F → Engine F → Body F → Type 0
  SettledSource cmd e body =
      (cmd.mode ≡ "") ⊎ (heat_source_for e.snap cmd.id cmd.mode ≡ some body.heater_id)

  write_heat-Settled :
      (id : String) (wanted : Option F) (body : Body F) (s : Bool × Option Client)
      → Settled wanted body.lo_set_temp
      → write_heat id wanted body s ≡ s
  unfolding write_heat
  write_heat-Settled id none body s h = refl
  write_heat-Settled id (some c) body s h = write_field-same _ _ _ s (ap itoa h)

  write_cool-Settled :
      (id : String) (wanted : Option F) (body : Body F) (s : Bool × Option Client)
      → Settled wanted body.hi_set_temp
      → write_cool id wanted body s ≡ s
  unfolding write_cool
  write_cool-Settled id none body s h = refl
  write_cool-Settled id (some c) body s h = write_field-same _ _ _ s (ap itoa h)

  write_source-SettledSource :
      (cmd : Command F) (e : Engine F) (body : Body F) (s : Bool × Option Client)
      → SettledSource cmd e body
      → write_source cmd.id
          (if cmd.mode == "" then none else heat_source_for e.snap cmd.id cmd.mode)
          body
          s
        ≡ s
  unfolding write_source
  write_source-SettledSource cmd e body s (inl silent) = rw silent refl
  write_source-SettledSource cmd e body s (inr same) = ground (
    arith,
    write_field-same body.heater_id body.heater_id (set_heat_source cmd.id body.heater_id) s refl,
  )

  -- A thermostat command for a body that the engine knows, each of whose three fields is absent or
  -- agrees with the body, the setpoints in whole degrees and the mode by the id of the heater that
  -- it selects, writes nothing and changes neither the engine nor the client.
  pub apply_thermostat-Settled :
      (cmd : Command F) (e : Engine F) (c : Option Client) (body : Body F)
      → lookup cmd.id e.snap.bodies ≡ some body
      → Settled cmd.heat_c body.lo_set_temp
      → Settled cmd.cool_c body.hi_set_temp
      → SettledSource cmd e body
      → apply_thermostat cmd e c ≡ (e, c)
  unfolding apply_thermostat verify_if
  apply_thermostat-Settled cmd e c body known heat cool source =
      rw
        (
          known,
          apply_thermostat,
          write_heat-Settled cmd.id cmd.heat_c body (false, c) heat,
          write_cool-Settled cmd.id cmd.cool_c body (false, c) cool,
          write_source-SettledSource cmd e body (false, c) source,
        )
        refl
