-- ===== src/Examples/Numbers.antt =====
-- Numbers with one decimal that are not negative: a number is a count of tenths. They stand for
-- `float64` in the examples.
use pentameter.Prelude.{ℕ, ◌+◌, ◌-◌, ◌*◌, ◌/◌, ltb, leb, eqb}
use pentameter.Prelude.Int.{pos, pos_part}
use pentameter.Prelude.Text.{atoi}
use pentameter.Prelude.Float.{Floats}

instance unfoldable pub tenths : Floats ℕ
unfolding atoi
tenths = record {
  parse = λ s. (pos_part (atoi s).0 * 10, (atoi s).1);
  eq = eqb;
  lt = ltb;
  le = leb;
  add = λ a b. a + b;
  sub = λ a b. a - b;
  mul = λ a b. (a * b) / 10;
  div = λ a b. (a * 10) / b;
  round = λ a. ((a + 5) / 10) * 10;
  of_int = λ n. pos_part n * 10;
  ratio = 18;
  to_int = λ a. pos (a / 10);
}
