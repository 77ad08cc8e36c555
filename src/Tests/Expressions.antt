-- ===== src/Tests/Expressions.antt =====
-- Expressions over two sets of data, and derived values.
use meteo.Base.{ℕ, ◌+◌, ◌≡◌, refl, false, [], ◌∷◌, ok}
use meteo.Base.Int.{ℤ, pos, ◌+ℤ◌}
use meteo.Base.Double.{int_double}
use meteo.Vector.{Libm}
use meteo.Converter.{Class}
use meteo.Converter.Units.{convert}
use meteo.Derived.{Elementary, TemperatureUnit}
use meteo.Tdata.{Tdata, of_value}
use meteo.Dataset.{Node, Dataset, Setting, process, get_data}
use meteo.Dataset.Expression.{Expr, Function, node_of}

instance abbrev plain_libm : Libm ℤ
plain_libm = record { sqrt = λ z. z; sin = λ z. z; cos = λ z. z; atan2 = λ y x. y }

instance abbrev plain_elementary : Elementary ℤ
plain_elementary = record {
  exp = λ z. z;
  log = λ z. z;
  tan = λ z. z;
  pow = λ x y. x;
  hypot = λ x y. x +ℤ y;
}

abbrev setting : Setting ℤ
setting = record {
  atof = λ s. pos 5;
  fabs = λ z. z;
  tu = TemperatureUnit.celsius;
  wu = "mph";
  left_first = λ n. false;
}

abbrev series : ℕ → Tdata ℤ
series v = record {
  interval = 300;
  start = 0;
  finish = 600;
  entries = (0, pos v) ∷ (300, pos (v + 1)) ∷ [];
  constant = false;
  value = pos 0;
}

abbrev stored : Dataset ℤ
stored = record { srcdata = ("in", series 20) ∷ ("out", series 8) ∷ []; data_map = [] }

abbrev difference : Expr
difference = Expr.call Function.square (Expr.diff (Expr.value "in") (Expr.value "out"))

abbrev five : Node
five = node_of (Expr.constant "5") Node.null

constant_five :
    process setting (get_data stored) (Node.element "data" (("name", "in") ∷ []) five Node.null)
    ≡ ok (of_value (pos 5))
unfolding process
constant_five = refl

mph : convert Class.wind "mph" (pos 10) "mph" ≡ ok (pos 10)
unfolding convert
mph = refl
