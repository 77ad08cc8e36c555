-- ===== src/Converter/Laws.antt =====
-- Which conversions of lib/*Converter.cc give a value.
use meteo.Base.{
  ◌≡◌, refl, Bool, true, false, ◌&&◌, ◌||◌, List, [], ◌∷◌, ok, err, ◌>>=◌, is_ok, if◌then◌else◌,
  String, unknown_unit_from, unknown_unit_to, arith, inl, inr, Bool-cases,
}
use meteo.Base.Text.{str_eq}
use meteo.Base.Double.{Double}
use meteo.Converter.{Class}
use meteo.Converter.Units.{is_fahrenheit, is_celsius, is_kelvin, convert, work}

abbrev pub one_of : String → List String → Bool
one_of s [] = false
one_of s (t ∷ ts) = str_eq s t || one_of s ts

-- The units of each class, but for the temperature, where Kelvin has names of its own.
abbrev pub units : Class → List String
units Class.basic = []
units Class.transmitter = []
units Class.temperature =
    "degrees Fahrenheit" ∷ "degF" ∷ "F" ∷ "degrees Celsius" ∷ "degC" ∷ "C" ∷ []
units Class.humidity = "%" ∷ []
units Class.pressure = "hPa" ∷ "mmHg" ∷ "inHg" ∷ []
units Class.wind = "m/s" ∷ "mph" ∷ "km/h" ∷ []
units Class.rain = "in" ∷ "mm" ∷ []
units Class.rain_rate = "in/h" ∷ "mm/h" ∷ []
units Class.moisture = "cb" ∷ []
units Class.level = "m" ∷ []
units Class.solar = "W/m2" ∷ []
units Class.uv = "med" ∷ "index" ∷ []
units Class.leafwetness = "" ∷ []
units Class.voltage = "V" ∷ []
units Class.time = "unix" ∷ []

abbrev pub kelvins : List String
kelvins = "Kelvin" ∷ "K" ∷ []

abbrev both_known : Class → String → String → Bool
both_known c from to = one_of from (units c) && one_of to (units c)

-- The conversions between different units that have a result.
abbrev pub accepts : Class → String → String → Bool
accepts Class.basic from to = true
accepts Class.transmitter from to = true
accepts Class.temperature from to = both_known Class.temperature from to || one_of from kelvins
accepts c from to = both_known c from to

regroup :
    (a b c x y z : Bool)
    → (a || (b || (c || (x || (y || (z || false)))))) ≡ ((a || b || c) || (x || y || z))
regroup true b c x y z = refl
regroup false true c x y z = refl
regroup false false true x y z = refl
regroup false false false true y z = refl
regroup false false false false true z = refl
regroup false false false false false true = refl
regroup false false false false false false = refl

pair_or : (a b : Bool) → (a || (b || false)) ≡ (a || b)
pair_or true b = refl
pair_or false true = refl
pair_or false false = refl

chain :
    {D : Type 0} (f c k f' c' : Bool) (a b v : D) (g h : D → D)
    → is_ok (
        (if f then ok a else if c then ok b else if k then ok v else err unknown_unit_from) >>= λ i.
        if f' then ok (g i) else if c' then ok (h i) else if k then ok i else err unknown_unit_to)
      ≡ (((f || c) && (f' || c')) || k)
chain f c k true c' a b v g h = ground arith
chain f c k false true a b v g h = ground arith
chain f c k false false a b v g h = ground arith

module _ {D : Type 0} ⦃d : Double D⦄ where
  temperature_ok :
      (to from : String) (v : D)
      → is_ok (work Class.temperature to v from) ≡ accepts Class.temperature from to
  unfolding work
  temperature_ok to from v =
      rw
        (
          regroup (str_eq from "degrees Fahrenheit") _ _ _ _ _,
          regroup (str_eq to "degrees Fahrenheit") _ _ _ _ _,
          pair_or (str_eq from "Kelvin") _,
        )
        (chain (is_fahrenheit from) (is_celsius from) (is_kelvin from) (is_fahrenheit to)
          (is_celsius to) _ _ _ _ _)

  work_ok : (c : Class) (to from : String) (v : D) → is_ok (work c to v from) ≡ accepts c from to
  unfolding work
  work_ok Class.basic to from v = refl
  work_ok Class.transmitter to from v = refl
  work_ok Class.temperature to from v = temperature_ok to from v
  work_ok Class.humidity to from v = ground arith
  work_ok Class.pressure to from v = ground arith
  work_ok Class.wind to from v = ground arith
  work_ok Class.rain to from v = ground arith
  work_ok Class.rain_rate to from v = ground arith
  work_ok Class.moisture to from v = ground arith
  work_ok Class.level to from v = ground arith
  work_ok Class.solar to from v = ground arith
  work_ok Class.uv to from v = ground arith
  work_ok Class.leafwetness to from v = ground arith
  work_ok Class.voltage to from v = ground arith
  work_ok Class.time to from v = ground arith

  -- A conversion gives a value exactly where the units are the same or the class has a conversion
  -- between them. From Kelvin that is any unit, and to Kelvin only from Kelvin.
  pub convert_ok :
      (c : Class) (to from : String) (v : D)
      → is_ok (convert c to v from) ≡ (str_eq from to || accepts c from to)
  unfolding convert
  convert_ok c to from v = elim (Bool-cases (str_eq from to)) [
    | inl same ↦ rw same refl
    | inr other ↦ rw other (work_ok c to from v)
  ]
