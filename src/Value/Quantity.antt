-- ===== src/Value/Quantity.antt =====
-- lib/BasicValueFactory.cc, lib/ValueFactory.cc, lib/Converter.cc and lib/Wind.cc: the content of a
-- value, behind the handle.
use meteo.Base.{
  ℕ, Bool, true, ◌||◌, Result, ok, err, ◌>>=◌, if◌then◌else◌, String, unknown_class, ◌%◌, ◌-◌,
}
use meteo.Base.Text.{str_eq}
use meteo.Base.Int.{ℤ, pos, negsuc}
use meteo.Base.Double.{Double}
use meteo.Vector.{Vector, Libm, pi, polar, get_abs, get_azi}
use meteo.Converter.{new_converter}
use meteo.Converter.Units.{convert}

-- A BasicValue that has a value, with its class, and the member `azi` of a Wind.
pub record Quantity (D : Type 0) : Type 0 where
  pub classname : String
  pub unit : String
  pub value : D
  pub azi : D

-- The classes that getBasicValueFromOld copies; getBasicValueFromClassnameAndUnit makes BasicValue too.
abbrev pub is_copied : String → Bool
is_copied c =
    str_eq c "TemperatureValue"
    || str_eq c "HumidityValue"
    || str_eq c "PressureValue"
    || str_eq c "Wind"
    || str_eq c "WindSpeed"
    || str_eq c "Rain"
    || str_eq c "RainRate"
    || str_eq c "SolarValue"
    || str_eq c "UVValue"
    || str_eq c "LevelValue"
    || str_eq c "MoistureValue"
    || str_eq c "LeafwetnessValue"
    || str_eq c "VoltageValue"
    || str_eq c "TransmitterStatus"
    || str_eq c "TimeValue"

-- The cast to `short unsigned`, of a number that an int holds.
abbrev pub to_unsigned_short : ℤ → ℕ
to_unsigned_short (pos n) = n % 65536
to_unsigned_short (negsuc n) = 65535 - n % 65536

module _ {D : Type 0} ⦃d : Double D⦄ where
  -- BasicValueFactory::newBasicValue. `azi` stands for the member of a Wind that the constructor with a
  -- unit does not set.
  unfoldable pub new_basic_value : D → String → D → String → Result (Quantity D)
  new_basic_value azi classname value unit =
      if str_eq classname "BasicValue"
      then ok record { classname = classname; unit = ""; value = value; azi = azi }
      else if is_copied classname
      then ok record { classname = classname; unit = unit; value = value; azi = azi }
      else err unknown_class

  -- BasicValueFactory::copyBasicValue
  abbrev pub copy_basic_value : Quantity D → Result (Quantity D)
  copy_basic_value q = if is_copied q.classname then ok q else err unknown_class

  -- Converter::operator(). `setUnit` is called while the copy has no value and then does nothing.
  unfoldable pub convert_quantity : String → Quantity D → Result (Quantity D)
  unfolding new_converter convert
  convert_quantity targetunit q = new_converter q.classname targetunit >>= λ bc.
      copy_basic_value q >>= λ result.
      convert bc.0 bc.1 q.value q.unit >>= λ v. ok record result { value = v }

  module _ ⦃c : Libm D⦄ where
    -- Wind(const Vector&, const std::string&), by ValueFactory::getValue
    unfoldable pub of_vector : Vector D → String → Quantity D
    unfolding get_azi
    of_vector v unit = record {
      classname = "Wind";
      unit = unit;
      value = get_abs v;
      azi = get_azi v;
    }

    -- Wind::getAzideg
    abbrev pub get_azideg : Quantity D → D
    get_azideg q = d.div (d.mul (d.lit (pos 180) 0) q.azi) pi

    -- Wind::getVectorValue
    unfoldable pub get_vector_value : Quantity D → Vector D
    unfolding polar
    get_vector_value q =
        polar q.value (d.of_int (pos (to_unsigned_short (d.trunc (get_azideg q))))) true
