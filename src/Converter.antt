-- ===== src/Converter.antt =====
-- lib/BasicConverter.cc and the other lib/*Converter.cc: conversion of a value from one unit to the
-- unit that the converter is made for, and lib/ConverterFactory.cc.
pub mod Units
pub mod Laws
use meteo.Base.{
  Bool, true, false, not, ◌||◌, Result, ok, err, ◌>>=◌, if◌then◌else◌, String, unknown_unit_from,
  unknown_unit_to, unknown_class,
}
use meteo.Base.Text.{str_eq}

-- The converter classes.
pub data Class : Type 0 where
  basic temperature humidity pressure wind rain rain_rate moisture level solar : Class
  uv leafwetness voltage transmitter time : Class

-- ConverterFactory::newConverter: the class and the target unit of the new converter.
unfoldable pub new_converter : String → String → Result (Class × String)
new_converter classname targetunit =
    if str_eq classname "BasicValue"
    then ok (Class.basic, "")
    else if str_eq classname "TemperatureValue"
    then ok (Class.temperature, targetunit)
    else if str_eq classname "HumidityValue"
    then ok (Class.humidity, targetunit)
    else if str_eq classname "PressureValue"
    then ok (Class.pressure, targetunit)
    else if str_eq classname "Wind"
    then ok (Class.wind, targetunit)
    else if str_eq classname "WindSpeed"
    then ok (Class.wind, targetunit)
    else if str_eq classname "Rain"
    then ok (Class.rain, targetunit)
    else if str_eq classname "RainRate"
    then ok (Class.rain_rate, targetunit)
    else if str_eq classname "MoistureValue"
    then ok (Class.moisture, targetunit)
    else if str_eq classname "LevelValue"
    then ok (Class.level, targetunit)
    else if str_eq classname "SolarValue"
    then ok (Class.solar, targetunit)
    else if str_eq classname "UVValue"
    then ok (Class.uv, targetunit)
    else if str_eq classname "LeafwetnessValue"
    then ok (Class.leafwetness, targetunit)
    else if str_eq classname "VoltageValue"
    then ok (Class.voltage, targetunit)
    else if str_eq classname "TransmitterStatus"
    then ok (Class.transmitter, targetunit)
    else if str_eq classname "TimeValue"
    then ok (Class.time, targetunit)
    else err unknown_class
