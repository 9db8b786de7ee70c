-- ===== src/IntelliCenter/Control.antt =====
-- intellicenter/control.go: the writes.
use pentameter.Prelude.{String, Bool, [], ◌∷◌, ◌==◌, if◌then◌else◌}
use pentameter.Prelude.Int.{ℤ}
use pentameter.Prelude.Map.{Map}
use pentameter.Prelude.Text.{itoa}
use pentameter.IntelliCenter.Types.{Response}
use pentameter.IntelliCenter.Result.{Result, ok, err, params_required}
use pentameter.IntelliCenter.Client.{Client, round_trip, request}

abbrev done : Result Response × Client → Result (Unit {0}) × Client
done (ok resp, c) = (ok tt, c)
done (err e, c) = (err e, c)

-- The round trip of a write.
write_params : String → Map String → Client → Result (Unit {0}) × Client
unfolding round_trip
write_params objnam params c = done (
    round_trip "set"
      (request "SetParamList" "" (record { obj_name = objnam; keys = []; params = params } ∷ [])) c)

abbrev none_given : Map String → Bool
none_given [] = Bool.true
none_given (p ∷ ps) = Bool.false

unfoldable pub set_params : String → Map String → Client → Result (Unit {0}) × Client
unfolding write_params
set_params objnam params c =
    if objnam == ""
    then (err params_required, c)
    else if none_given params
    then (err params_required, c)
    else write_params objnam params c

unfoldable pub set_circuit : String → Bool → Client → Result (Unit {0}) × Client
unfolding set_params
set_circuit objnam on = set_params objnam (("STATUS", if on then "ON" else "OFF") ∷ [])

unfoldable pub set_heat_setpoint : String → ℤ → Client → Result (Unit {0}) × Client
unfolding set_params itoa
set_heat_setpoint body low = set_params body (("LOTMP", itoa low) ∷ [])

unfoldable pub set_cool_setpoint : String → ℤ → Client → Result (Unit {0}) × Client
unfolding set_params itoa
set_cool_setpoint body high = set_params body (("HITMP", itoa high) ∷ [])

abbrev pub heat_source_none : String
heat_source_none = "00000"

unfoldable pub set_heat_source : String → String → Client → Result (Unit {0}) × Client
unfolding set_params
set_heat_source body heater = set_params body (("HEATER", heater) ∷ [])
