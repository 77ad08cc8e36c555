-- ===== src/Derived/Laws.antt =====
-- What the units do to the wind chill.
use meteo.Base.{◌≡◌, ap, false, ok, ◌>>=◌, String, if◌then◌else◌, Bool-cases, inl, inr}
use meteo.Base.Double.{Double, IsOrdered}
use meteo.Converter.{Class}
use meteo.Converter.Units.{convert}
use meteo.Derived.{
  Elementary, TemperatureUnit, windchill, input_fahrenheit, output, reasonable, whole, wcf,
}

module _ {D : Type 0} ⦃d : Double D⦄ ⦃c : Elementary D⦄ (o : IsOrdered D) where
  reasonable_bounded : (windmph tempf : D) → d.lt tempf (reasonable windmph tempf) ≡ false
  reasonable_bounded windmph tempf =
      let chill = if d.lt tempf (whole 60) then wcf windmph tempf else tempf in
      elim (Bool-cases (d.lt tempf chill)) [
        | inl above ↦ rw above (o.lt_irrefl tempf)
        | inr below ↦ rw below below
      ]

  -- Where the database keeps degrees Fahrenheit and `<` is an order: for a wind speed in a unit that the wind
  -- converter knows, the wind chill has a value, and it is not above the temperature.
  pub windchill_bounded :
      (wu : String) (windspeed temperature windmph : D)
      → convert Class.wind "mph" windspeed wu ≡ ok windmph
      → (chill : D) × (windchill TemperatureUnit.fahrenheit wu windspeed temperature ≡ ok chill)
        × (d.lt temperature chill ≡ false)
  unfolding windchill
  windchill_bounded wu windspeed temperature windmph e = (
    reasonable windmph temperature,
    ap (λ r. r >>= λ w. output TemperatureUnit.fahrenheit temperature (reasonable w temperature)) e,
    reasonable_bounded windmph temperature,
  )

-- Where the database keeps degrees Celsius: for a wind speed in a unit that the wind converter knows, the wind
-- chill is the temperature, converted to degrees Fahrenheit and back, whatever the wind speed is.
pub windchill_celsius :
    {D : Type 0} ⦃d : Double D⦄ ⦃c : Elementary D⦄ (wu : String) (windspeed temperature windmph : D)
    → convert Class.wind "mph" windspeed wu ≡ ok windmph
    → windchill TemperatureUnit.celsius wu windspeed temperature ≡ (
        convert Class.temperature "F" temperature "C" >>= λ tempf.
        convert Class.temperature "C" tempf "F")
unfolding windchill
windchill_celsius wu windspeed temperature windmph e =
    ap
      (λ r. input_fahrenheit TemperatureUnit.celsius temperature >>= λ tempf.
        r >>= λ w. output TemperatureUnit.celsius tempf (reasonable w tempf))
      e
