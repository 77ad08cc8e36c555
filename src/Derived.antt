-- ===== src/Derived.antt =====
-- lib/Derivedvalue.cc, lib/Dewpoint.cc, lib/Heatindex.cc and lib/Windchill.cc: values that are computed from
-- two readings. The units that the database keeps are arguments, and so are `exp`, `log` and the other
-- functions of the C library.
pub mod Laws
use meteo.Base.{ℕ, Bool, not, ◌||◌, Result, ok, err, ◌>>=◌, String, if◌then◌else◌}
use meteo.Base.Int.{ℤ, pos}
use meteo.Base.Text.{str_eq}
use meteo.Base.Double.{Double}
use meteo.Converter.{Class}
use meteo.Converter.Units.{convert}

pub record Elementary (D : Type 0) : Type 0 where
  pub exp : D → D
  pub log : D → D
  pub tan : D → D
  pub pow : D → D → D
  pub hypot : D → D → D

pub data TemperatureUnit : Type 0 where
  celsius fahrenheit : TemperatureUnit

-- Derivedvalue::get, on the unit that the database has for the temperature
abbrev pub unit_of : String → TemperatureUnit
unit_of t =
    if str_eq t "C" || str_eq t "degC" || str_eq t "Celsius" || str_eq t ""
    then TemperatureUnit.celsius
    else TemperatureUnit.fahrenheit

module _ {D : Type 0} ⦃d : Double D⦄ where
  abbrev pub whole : ℕ → D
  whole n = d.lit (pos n) 0

  -- 5. * (temp - 32.) / 9. and 32. + temp * 9. / 5.
  abbrev pub celsius_of : D → D
  celsius_of temp = d.div (d.mul (whole 5) (d.sub temp (whole 32))) (whole 9)

  abbrev pub fahrenheit_of : D → D
  fahrenheit_of temp = d.add (whole 32) (d.div (d.mul temp (whole 9)) (whole 5))

  abbrev pub in_celsius : TemperatureUnit → D → D
  in_celsius TemperatureUnit.celsius temp = temp
  in_celsius TemperatureUnit.fahrenheit temp = celsius_of temp

  abbrev pub from_celsius : TemperatureUnit → D → D
  from_celsius TemperatureUnit.celsius result = result
  from_celsius TemperatureUnit.fahrenheit result = fahrenheit_of result

  abbrev pub in_fahrenheit : TemperatureUnit → D → D
  in_fahrenheit TemperatureUnit.celsius temp = fahrenheit_of temp
  in_fahrenheit TemperatureUnit.fahrenheit temp = temp

  -- Heatindex::operator()
  abbrev pub regression : D → D → D
  regression h t =
      let a = d.add (d.neg (d.lit (pos 42379) 3)) (d.mul (d.lit (pos 204901523) 8) t) in
      let b = d.add a (d.mul (d.lit (pos 1014333127) 8) h) in
      let c = d.sub b (d.mul (d.mul (d.lit (pos 22475541) 8) t) h) in
      let e = d.sub c (d.mul (d.mul (d.lit (pos 683783) 8) t) t) in
      let f = d.sub e (d.mul (d.mul (d.lit (pos 5481717) 8) h) h) in
      let g = d.add f (d.mul (d.mul (d.mul (d.lit (pos 122874) 8) t) t) h) in
      let i = d.add g (d.mul (d.mul (d.mul (d.lit (pos 85282) 8) t) h) h) in
      d.sub i (d.mul (d.mul (d.mul (d.mul (d.lit (pos 199) 8) t) t) h) h)

  unfoldable pub heatindex : TemperatureUnit → D → D → D
  heatindex tu humidity temp = regression humidity (in_fahrenheit tu temp)

  module _ ⦃c : Elementary D⦄ where
    -- Dewpoint::operator(): its partial pressure and the temperature of a partial pressure
    abbrev pub pressure_at : D → D → D
    pressure_at humidity t =
        d.mul (d.mul humidity (d.lit (pos 1) 2))
          (c.exp (d.div (d.mul (d.lit (pos 17502) 3) t) (d.add (d.lit (pos 2409) 1) t)))

    abbrev pub point_at : D → D
    point_at ews =
        d.div (d.mul (d.lit (pos 2409) 1) (c.log ews)) (d.sub (d.lit (pos 175) 1) (c.log ews))

    abbrev pub coldest : D
    coldest = d.neg (d.lit (pos 2730) 1)

    -- `isnan`: a number that does not equal itself
    abbrev pub number_or : D → D → D
    number_or other dp = if d.eq dp dp then dp else other

    unfoldable pub dewpoint : TemperatureUnit → D → D → D
    dewpoint tu humidity temp =
        let ews = pressure_at humidity (in_celsius tu temp) in
        if d.lt ews (whole 0) then coldest else from_celsius tu (number_or coldest (point_at ews))

    -- Windchill::operator(): the formula, and the chill that is never above the temperature
    abbrev pub wcf : D → D → D
    wcf windmph tempf = d.sub (d.add (d.lit (pos 3574) 2) (d.mul (d.lit (pos 6215) 4) tempf)) (
        d.mul (d.add (d.lit (pos 3557) 2) (d.mul (d.lit (pos 4275) 4) tempf))
          (c.pow windmph (d.lit (pos 16) 2)))

    abbrev pub reasonable : D → D → D
    reasonable windmph tempf =
        let chill = if d.lt tempf (whole 60) then wcf windmph tempf else tempf in
        if d.lt tempf chill then tempf else chill

    abbrev pub input_fahrenheit : TemperatureUnit → D → Result D
    input_fahrenheit TemperatureUnit.celsius temp = convert Class.temperature "F" temp "C"
    input_fahrenheit TemperatureUnit.fahrenheit temp = ok temp

    abbrev pub output : TemperatureUnit → D → D → Result D
    output TemperatureUnit.celsius tempf chill = convert Class.temperature "C" tempf "F"
    output TemperatureUnit.fahrenheit tempf chill = ok chill

    unfoldable pub windchill : TemperatureUnit → String → D → D → Result D
    windchill tu wu windspeed temperature = input_fahrenheit tu temperature >>= λ tempf.
        convert Class.wind "mph" windspeed wu >>= λ windmph.
        output tu tempf (reasonable windmph tempf)
