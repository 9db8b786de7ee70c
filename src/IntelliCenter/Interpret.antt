-- ===== src/IntelliCenter/Interpret.antt =====
-- intellicenter/interpret.go
use pentameter.Prelude.{String, Bool, ◌&&◌, ◌||◌, if◌then◌else◌}
use pentameter.Prelude.Int.{ℤ, pos, eqb_ℤ}
use pentameter.Prelude.Float.{Floats}
use pentameter.Prelude.Text.{has_suffix}
use pentameter.IntelliCenter.Types.{Body}

abbrev pub status_off : ℤ
status_off = pos 0

abbrev pub status_heating : ℤ
status_heating = pos 1

abbrev pub status_idle : ℤ
status_idle = pos 2

abbrev pub status_cooling : ℤ
status_cooling = pos 3

module _ {F : Type 0} ⦃fl : Floats F⦄ where
  -- `Body.HeatStatus`: the `switch` on the heat mode
  unfoldable pub heat_status : Body F → ℤ
  heat_status b =
      if eqb_ℤ b.heat_mode (pos 0)
      then (if fl.le b.lo_set_temp b.temp && fl.le b.temp b.hi_set_temp
          then status_idle
          else status_off)
      else if eqb_ℤ b.heat_mode (pos 1) || eqb_ℤ b.heat_mode (pos 4)
      then status_heating
      else if eqb_ℤ b.heat_mode (pos 9)
      then status_cooling
      else status_off

unfoldable pub heat_status_string : ℤ → String
heat_status_string status =
    if eqb_ℤ status (pos 1)
    then "heating"
    else if eqb_ℤ status (pos 2)
    then "idle"
    else if eqb_ℤ status (pos 3)
    then "cooling"
    else "off"

unfoldable pub should_show_feature : String → Bool
should_show_feature shomnu = has_suffix shomnu "w"
