-- ===== src/Converter/Units.antt =====
-- The `operator()` of each class of lib/*Converter.cc.
use meteo.Base.{
  Bool, not, ◌||◌, Result, ok, err, ◌>>=◌, if◌then◌else◌, String, unknown_unit_from,
  unknown_unit_to,
}
use meteo.Base.Text.{str_eq}
use meteo.Base.Int.{pos}
use meteo.Base.Double.{Double}
use meteo.Converter.{Class}

-- The names that a temperature unit goes by.
abbrev pub is_fahrenheit : String → Bool
is_fahrenheit u = str_eq u "degrees Fahrenheit" || str_eq u "degF" || str_eq u "F"

abbrev pub is_celsius : String → Bool
is_celsius u = str_eq u "degrees Celsius" || str_eq u "degC" || str_eq u "C"

abbrev pub is_kelvin : String → Bool
is_kelvin u = str_eq u "Kelvin" || str_eq u "K"

module _ {D : Type 0} ⦃d : Double D⦄ where
  -- TemperatureConverter::operator(), after the test for the same unit
  abbrev pub to_kelvin : D → String → Result D
  to_kelvin value from =
      if is_fahrenheit from
      then ok (
          d.add (d.lit (pos 27315) 2)
            (d.div (d.mul (d.lit (pos 5) 0) (d.sub value (d.lit (pos 32) 0))) (d.lit (pos 9) 0)))
      else if is_celsius from
      then ok (d.add value (d.lit (pos 27315) 2))
      else if is_kelvin from
      then ok value
      else err unknown_unit_from

  abbrev pub from_kelvin : D → String → String → Result D
  from_kelvin intermediate from to =
      if is_fahrenheit to
      then ok (
          d.add
            (d.div (d.mul (d.lit (pos 9) 0) (d.sub intermediate (d.lit (pos 27315) 2)))
              (d.lit (pos 5) 0))
            (d.lit (pos 32) 0))
      else if is_celsius to
      then ok (d.sub intermediate (d.lit (pos 27315) 2))
      else if is_kelvin from
      then ok intermediate
      else err unknown_unit_to

  -- PressureConverter::operator(), by way of hPa
  abbrev pub to_hpa : D → String → Result D
  to_hpa value from =
      if str_eq from "hPa"
      then ok value
      else if str_eq from "mmHg"
      then ok (d.mul (d.lit (pos 1333224) 6) value)
      else if str_eq from "inHg"
      then ok (d.mul (d.lit (pos 338639) 4) value)
      else err unknown_unit_from

  abbrev pub from_hpa : D → String → Result D
  from_hpa i to =
      if str_eq to "hPa"
      then ok i
      else if str_eq to "mmHg"
      then ok (d.div i (d.lit (pos 1333224) 6))
      else if str_eq to "inHg"
      then ok (d.div (d.mul i (d.lit (pos 3970079) 8)) (d.lit (pos 1333224) 6))
      else err unknown_unit_to

  -- WindConverter::operator(), by way of m/s
  abbrev mile : D
  mile = d.lit (pos 1609344) 6

  abbrev pub to_mps : D → String → Result D
  to_mps value from =
      if str_eq from "m/s"
      then ok value
      else if str_eq from "mph"
      then ok (d.div (d.mul value mile) (d.lit (pos 36) 1))
      else if str_eq from "km/h"
      then ok (d.div value (d.lit (pos 36) 1))
      else err unknown_unit_from

  abbrev pub from_mps : D → String → Result D
  from_mps i to =
      if str_eq to "m/s"
      then ok i
      else if str_eq to "mph"
      then ok (d.div (d.mul (d.lit (pos 36) 1) i) mile)
      else if str_eq to "km/h"
      then ok (d.mul (d.lit (pos 36) 1) i)
      else err unknown_unit_to

  -- RainConverter::operator() and RainRateConverter::operator(), by way of mm and mm/h
  abbrev pub to_mm : String → String → D → String → Result D
  to_mm inches mm value from =
      if str_eq from inches
      then ok (d.mul value (d.lit (pos 254) 1))
      else if str_eq from mm
      then ok value
      else err unknown_unit_from

  abbrev pub from_mm : String → String → D → String → Result D
  from_mm inches mm i to =
      if str_eq to inches
      then ok (d.div i (d.lit (pos 254) 1))
      else if str_eq to mm
      then ok i
      else err unknown_unit_to

  -- UVConverter::operator(), by way of the index
  abbrev pub to_index : D → String → Result D
  to_index value from =
      if str_eq from "med"
      then ok (d.mul (d.div (d.lit (pos 7) 0) (d.lit (pos 3) 0)) value)
      else if str_eq from "index"
      then ok value
      else err unknown_unit_from

  abbrev pub from_index : D → String → Result D
  from_index i to =
      if str_eq to "med"
      then ok (d.mul (d.div (d.lit (pos 3) 0) (d.lit (pos 7) 0)) i)
      else if str_eq to "index"
      then ok i
      else err unknown_unit_to

  -- The converters of classes with one unit.
  abbrev pub only : String → String → D → String → Result D
  only unit to value from =
      if not (str_eq from unit)
      then err unknown_unit_from
      else if not (str_eq to unit)
      then err unknown_unit_to
      else ok value

  -- The work of each `operator()` after the test for the same unit.
  abbrev temperature_work : String → D → String → Result D
  temperature_work to value from = to_kelvin value from >>= λ i. from_kelvin i from to

  abbrev pressure_work : String → D → String → Result D
  pressure_work to value from = to_hpa value from >>= λ i. from_hpa i to

  abbrev wind_work : String → D → String → Result D
  wind_work to value from = to_mps value from >>= λ i. from_mps i to

  abbrev rain_work : String → D → String → Result D
  rain_work to value from = to_mm "in" "mm" value from >>= λ i. from_mm "in" "mm" i to

  abbrev rain_rate_work : String → D → String → Result D
  rain_rate_work to value from = to_mm "in/h" "mm/h" value from >>= λ i. from_mm "in/h" "mm/h" i to

  abbrev uv_work : String → D → String → Result D
  uv_work to value from = to_index value from >>= λ i. from_index i to

  abbrev humidity_work : String → D → String → Result D
  humidity_work to value from = only "%" to value from

  abbrev moisture_work : String → D → String → Result D
  moisture_work to value from = only "cb" to value from

  abbrev level_work : String → D → String → Result D
  level_work to value from = only "m" to value from

  abbrev solar_work : String → D → String → Result D
  solar_work to value from = only "W/m2" to value from

  abbrev leafwetness_work : String → D → String → Result D
  leafwetness_work to value from = only "" to value from

  abbrev voltage_work : String → D → String → Result D
  voltage_work to value from = only "V" to value from

  abbrev time_work : String → D → String → Result D
  time_work to value from = only "unix" to value from

  -- The virtual `operator()`; BasicConverter and TransmitterConverter return the value.
  unfoldable pub work : Class → String → D → String → Result D
  work Class.basic to value from = ok value
  work Class.transmitter to value from = ok value
  work Class.temperature to value from = temperature_work to value from
  work Class.pressure to value from = pressure_work to value from
  work Class.wind to value from = wind_work to value from
  work Class.rain to value from = rain_work to value from
  work Class.rain_rate to value from = rain_rate_work to value from
  work Class.uv to value from = uv_work to value from
  work Class.humidity to value from = humidity_work to value from
  work Class.moisture to value from = moisture_work to value from
  work Class.level to value from = level_work to value from
  work Class.solar to value from = solar_work to value from
  work Class.leafwetness to value from = leafwetness_work to value from
  work Class.voltage to value from = voltage_work to value from
  work Class.time to value from = time_work to value from

  unfoldable pub convert : Class → String → D → String → Result D
  convert c to value from =
      let other = work c to value from in if str_eq from to then ok value else other

-- BasicConverter::convert: the value of `b` is replaced, and its unit stays.
pub record BasicValue (D : Type 0) : Type 0 where
  pub value : D
  pub unit : String

module _ {D : Type 0} ⦃d : Double D⦄ where
  unfoldable pub convert_value : Class → String → BasicValue D → Result (BasicValue D)
  unfolding convert
  convert_value c to b = convert c to b.value b.unit >>= λ v. ok (record b { value = v })
