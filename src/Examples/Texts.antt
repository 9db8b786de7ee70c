-- ===== src/Examples/Texts.antt =====
-- Runs of the functions on texts and numbers.
use pentameter.Prelude.{ℕ, true, false, [], ◌∷◌, ◌≡◌, refl}
use pentameter.Prelude.Int.{pos, negsuc}
use pentameter.Prelude.Text.{itoa, atoi, to_lower, fields}
use pentameter.Homebridge.Convert.{f_to_c_step, c_to_f}
use pentameter.Homebridge.Items.{is_light_sub_type}
use pentameter.Examples.Numbers.{tenths}

atoi_minus : atoi "-42" ≡ (negsuc 41, true)
unfolding atoi
atoi_minus = refl

atoi_bad : atoi "4x" ≡ (pos 0, false)
unfolding atoi
atoi_bad = refl

itoa_example : itoa (pos 1729) ≡ "1729"
unfolding itoa
itoa_example = refl

to_lower_example : to_lower "Gas HEATER 2" ≡ "gas heater 2"
unfolding to_lower
to_lower_example = refl

fields_example : fields " B1101  B1202 " ≡ "B1101" ∷ "B1202" ∷ []
unfolding fields
fields_example = refl

light_example : is_light_sub_type " intelli" ≡ true
unfolding is_light_sub_type
light_example = refl

-- 80 degrees Fahrenheit are 26.5 degrees Celsius in steps of half a degree, and come back as 80.
f_to_c_step_example : f_to_c_step {F = ℕ} 800 ≡ 265
unfolding f_to_c_step tenths
f_to_c_step_example = refl

c_to_f_example : c_to_f {F = ℕ} 265 ≡ pos 80
unfolding c_to_f tenths
c_to_f_example = refl
