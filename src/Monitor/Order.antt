-- ===== src/Monitor/Order.antt =====
-- A heater that no body refers to takes its status from the bodies whose names match its own, in the
-- order in which Go iterates over a map.
use pentameter.Prelude.{
  String, Bool, true, false, [], ◌∷◌, ◌≡◌, refl, ◌||◌, ◌==◌, arith, if◌then◌else◌, All, Bool-cases,
  inl, inr,
}
use pentameter.Prelude.Map.{Map}
use pentameter.Prelude.Text.{to_lower, contains}
use pentameter.Monitor.Thermal.{
  thermal_status_off, thermal_status_heating, calculate_heater_status_from_name,
}

-- The heater's name in lower case contains the body's, or is contained in it.
abbrev pub matches : String → String → Bool
matches heater body = contains (to_lower heater) body || contains body (to_lower heater)

-- With exactly two bodies, which both match the heater, one heating and one not, the first in the
-- order of the map decides: one order gives heating, the other gives off.
pub calculate_heater_status_from_name-order :
    (heater status heating idle : String)
    → matches heater heating ≡ true
    → matches heater idle ≡ true
    → (calculate_heater_status_from_name ((heating, true) ∷ (idle, false) ∷ []) heater status
        ≡ thermal_status_heating)
      × (calculate_heater_status_from_name ((idle, false) ∷ (heating, true) ∷ []) heater status
          ≡ thermal_status_off)
unfolding calculate_heater_status_from_name
calculate_heater_status_from_name-order heater status heating idle h k =
    (ground arith, ground arith)

-- The bodies that match the heater all heat, or none of them does.
abbrev pub AgreeOn : String → Bool → Map Bool → Type 0
AgreeOn heater flag bodies =
    All (λ (b : String × Bool). matches heater b.0 ≡ true → b.1 ≡ flag) bodies

abbrev pub some_match : String → Map Bool → Bool
some_match heater [] = false
some_match heater ((body, heating) ∷ bodies) = matches heater body || some_match heater bodies

-- If the bodies that match the heater all heat or all do not, the status is theirs where there is
-- one, and otherwise comes from the heater's own status, whatever the order of the map.
pub calculate_heater_status_from_name-agree :
    (bodies : Map Bool) (heater status : String) (flag : Bool)
    → AgreeOn heater flag bodies
    → calculate_heater_status_from_name bodies heater status ≡ (
        if some_match heater bodies
        then (if flag then thermal_status_heating else thermal_status_off)
        else (if status == "ON" then thermal_status_heating else thermal_status_off))
unfolding calculate_heater_status_from_name
calculate_heater_status_from_name-agree [] heater status flag h = refl
calculate_heater_status_from_name-agree ((body, heating) ∷ bodies) heater status flag h =
    elim (Bool-cases (matches heater body)) [
      | inl match ↦ let same = h.0 match in ground arith
      | inr other ↦
          let rest = calculate_heater_status_from_name-agree bodies heater status flag h.1 in
          ground arith
    ]
