-- ===== src/Prelude/Float.antt =====
-- Go's `float64`: a carrier with the operations that the program uses. The program's text does not
-- say how these compute, so they are a parameter; no law is assumed here, since `==` on `float64`
-- has none (`NaN` differs from itself, and `-0` equals `0`).
use Prim.Native.String.{String}
use mathlib.Core.Bool.{Bool}
use pentameter.Prelude.Int.{ℤ}

pub record Floats (F : Type 0) : Type 0 where
  -- `strconv.ParseFloat(s, 64)`: the value, and whether the error is nil
  pub parse : String → F × Bool
  pub eq : F → F → Bool
  pub lt : F → F → Bool
  pub le : F → F → Bool
  pub add : F → F → F
  pub sub : F → F → F
  pub mul : F → F → F
  pub div : F → F → F
  -- `math.Round`
  pub round : F → F
  -- a constant of the source, or `float64(n)`
  pub of_int : ℤ → F
  -- the constant 1.8
  pub ratio : F
  -- `int(x)`
  pub to_int : F → ℤ
