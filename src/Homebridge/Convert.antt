-- ===== src/Homebridge/Convert.antt =====
-- The temperature conversions of homebridge.go: `fToC`, `fToCStep` and `cToF`.
use pentameter.Prelude.Int.{ℤ, pos}
use pentameter.Prelude.Float.{Floats}

module _ {F : Type 0} ⦃fl : Floats F⦄ where
  -- (f - 32) / 1.8
  celsius : F → F
  celsius f = fl.div (fl.sub f (fl.of_int (pos 32))) fl.ratio

  -- `fToC`: to a tenth of a degree
  unfoldable pub f_to_c : F → F
  unfolding celsius
  f_to_c f = fl.div (fl.round (fl.mul (celsius f) (fl.of_int (pos 10)))) (fl.of_int (pos 10))

  -- `fToCStep`: to half a degree
  unfoldable pub f_to_c_step : F → F
  unfolding celsius
  f_to_c_step f = fl.div (fl.round (fl.mul (celsius f) (fl.of_int (pos 2)))) (fl.of_int (pos 2))

  -- `cToF`: to a whole degree
  unfoldable pub c_to_f : F → ℤ
  c_to_f c = fl.to_int (fl.round (fl.add (fl.mul c fl.ratio) (fl.of_int (pos 32))))
