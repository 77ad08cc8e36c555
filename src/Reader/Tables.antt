-- ===== src/Reader/Tables.antt =====
-- lib/ReaderInfo.cc: the readers of each station type, and the packet sizes that the station classes are
-- made with (lib/StationFactory.cc, lib/WMII.cc, lib/GroWeather.cc, lib/Energy.cc, lib/Health.cc,
-- lib/VantagePro.cc).
pub mod Bounds
use meteo.Base.{
  ℕ, List, [], ◌∷◌, Option, none, some, Result, ok, err, unknown_station, String, if◌then◌else◌,
}
use meteo.Base.Text.{str_eq}

-- `stationreaders_t`
pub record Entry : Type 0 where
  pub readername : String
  pub classname : String
  pub param1 : ℕ
  pub param2 : ℕ
  pub readerunit : String

abbrev entry : String → String → ℕ → ℕ → String → Entry
entry readername classname param1 param2 readerunit = record {
  readername = readername;
  classname = classname;
  param1 = param1;
  param2 = param2;
  readerunit = readerunit;
}

abbrev pub vantage_pro_readers : List Entry
vantage_pro_readers =
    entry "console.barometer" "BarometerReader" 7 2 "inHg"
    ∷ entry "console.temperature" "TemperatureReader" 9 2 "F"
    ∷ entry "console.humidity" "SignedBytePacketReader" 11 1 "%"
    ∷ entry "iss.temperature" "TemperatureReader" 12 2 "F"
    ∷ entry "iss.wind" "VantageProWindReader" 14 3 "mph"
    ∷ entry "extra1.temperature" "ExtraTemperatureReader" 18 1 "F"
    ∷ entry "extra2.temperature" "ExtraTemperatureReader" 19 1 "F"
    ∷ entry "extra3.temperature" "ExtraTemperatureReader" 20 1 "F"
    ∷ entry "extra4.temperature" "ExtraTemperatureReader" 21 1 "F"
    ∷ entry "extra5.temperature" "ExtraTemperatureReader" 22 1 "F"
    ∷ entry "extra6.temperature" "ExtraTemperatureReader" 23 1 "F"
    ∷ entry "extra7.temperature" "ExtraTemperatureReader" 24 1 "F"
    ∷ entry "soil1.temperature" "ExtraTemperatureReader" 25 1 "F"
    ∷ entry "soil2.temperature" "ExtraTemperatureReader" 26 1 "F"
    ∷ entry "soil3.temperature" "ExtraTemperatureReader" 27 1 "F"
    ∷ entry "soil4.temperature" "ExtraTemperatureReader" 28 1 "F"
    ∷ entry "leaf1.temperature" "ExtraTemperatureReader" 29 1 "F"
    ∷ entry "leaf2.temperature" "ExtraTemperatureReader" 30 1 "F"
    ∷ entry "leaf3.temperature" "ExtraTemperatureReader" 31 1 "F"
    ∷ entry "leaf4.temperature" "ExtraTemperatureReader" 32 1 "F"
    ∷ entry "iss.humidity" "SignedBytePacketReader" 33 1 "%"
    ∷ entry "extra1.humidity" "SignedBytePacketReader" 34 1 "%"
    ∷ entry "extra2.humidity" "SignedBytePacketReader" 35 1 "%"
    ∷ entry "extra3.humidity" "SignedBytePacketReader" 36 1 "%"
    ∷ entry "extra4.humidity" "SignedBytePacketReader" 37 1 "%"
    ∷ entry "extra5.humidity" "SignedBytePacketReader" 38 1 "%"
    ∷ entry "extra6.humidity" "SignedBytePacketReader" 39 1 "%"
    ∷ entry "extra7.humidity" "SignedBytePacketReader" 40 1 "%"
    ∷ entry "iss.rainrate" "RainRateReader" 41 2 "in/h"
    ∷ entry "iss.uv" "UVReader" 43 1 "index"
    ∷ entry "iss.solar" "SignedLittleEndianShortPacketReader" 44 1 "W/m2"
    ∷ entry "iss.rain" "RainReader" 50 1 "in"
    ∷ entry "soil1.moisture" "UnsignedBytePacketReader" 62 1 "cb"
    ∷ entry "soil2.moisture" "UnsignedBytePacketReader" 63 1 "cb"
    ∷ entry "soil3.moisture" "UnsignedBytePacketReader" 64 1 "cb"
    ∷ entry "soil4.moisture" "UnsignedBytePacketReader" 65 1 "cb"
    ∷ entry "leaf1.wetness" "UnsignedBytePacketReader" 66 1 "index"
    ∷ entry "leaf2.wetness" "UnsignedBytePacketReader" 67 1 "index"
    ∷ entry "leaf3.wetness" "UnsignedBytePacketReader" 68 1 "index"
    ∷ entry "leaf4.wetness" "UnsignedBytePacketReader" 69 1 "index"
    ∷ entry "iss.transmitter" "UnsignedBytePacketReader" 86 1 ""
    ∷ entry "console.battery" "VoltageReader" 87 2 "V"
    ∷ entry "console.sunrise" "TimeReader" 91 2 "unix"
    ∷ entry "console.sunset" "TimeReader" 93 2 "unix"
    ∷ []

abbrev pub wmii_readers : List Entry
wmii_readers =
    entry "inside.temperature" "TemperatureReader" 1 2 "F"
    ∷ entry "outside.temperature" "TemperatureReader" 3 2 "F"
    ∷ entry "outside.wind" "WMIIWindReader" 5 2 "mph"
    ∷ entry "inside.barometer" "BarometerReader" 8 2 "inHg"
    ∷ entry "inside.humidity" "SignedBytePacketReader" 10 1 "%"
    ∷ entry "outside.humidity" "SignedBytePacketReader" 11 1 "%"
    ∷ entry "outside.rain" "RainReader" 12 2 "in"
    ∷ []

abbrev pub groweather_readers : List Entry
groweather_readers =
    entry "soil.temperature" "OldTemperatureReader" 4 2 "F"
    ∷ entry "outside.temperature" "OldTemperatureReader" 6 2 "F"
    ∷ entry "outside.wind" "OldWindReader" 8 3 "mph"
    ∷ entry "inside.barometer" "BarometerReader" 11 2 "inHg"
    ∷ entry "outside.rainrate" "RainRateReader" 13 1 "in/h"
    ∷ entry "outside.humidity" "SignedBytePacketReader" 14 2 "%"
    ∷ entry "outside.rain" "RainReader" 15 2 "in"
    ∷ entry "outside.solar" "SignedLittleEndianShortPacketReader" 17 2 "W/m2"
    ∷ []

abbrev pub energy_readers : List Entry
energy_readers =
    entry "inside.temperature" "TemperatureReader" 4 2 "F"
    ∷ entry "outside.temperature" "TemperatureReader" 6 2 "F"
    ∷ entry "outside.wind" "OldWindReader" 8 3 "mph"
    ∷ entry "inside.barometer" "BarometerReader" 11 2 "inHg"
    ∷ entry "outside.rainrate" "RainRateReader" 13 1 "in/h"
    ∷ entry "outside.humidity" "SignedBytePacketReader" 14 1 "%"
    ∷ entry "outside.rain" "RainReader" 15 2 "in"
    ∷ entry "outside.solar" "SignedLittleEndianShortPacketReader" 17 2 "W/m2"
    ∷ []

abbrev pub health_readers : List Entry
health_readers =
    entry "inside.temperature" "OldTemperatureReader" 4 2 "F"
    ∷ entry "outside.temperature" "OldTemperatureReader" 6 2 "F"
    ∷ entry "outside.wind" "OldWindReader" 8 2 "mph"
    ∷ entry "inside.barometer" "BarometerReader" 11 2 "inHg"
    ∷ entry "outside.rainrate" "RainRateReader" 13 1 "in/h"
    ∷ entry "outside.rain" "RainReader" 14 2 "in"
    ∷ entry "outside.solar" "SignedLittleEndianShortPacketReader" 16 2 "W/m2"
    ∷ entry "inside.humidity" "SignedBytePacketReader" 18 1 "%"
    ∷ entry "outside.humidity" "SignedBytePacketReader" 19 1 "%"
    ∷ entry "outside.uv" "UnsignedBytePacketReader" 20 1 "index"
    ∷ []

-- ReaderInfo::getReaders; `none` is NULL.
abbrev pub get_readers : String → Option (List Entry)
get_readers t =
    if str_eq t "WMII"
    then some wmii_readers
    else if str_eq t "Perception"
    then some wmii_readers
    else if str_eq t "Wizard"
    then some wmii_readers
    else if str_eq t "GroWeather"
    then some groweather_readers
    else if str_eq t "Energy"
    then some energy_readers
    else if str_eq t "Health"
    then some health_readers
    else if str_eq t "VantagePro"
    then some vantage_pro_readers
    else none

-- ReaderInfo::knownTypes
abbrev pub known_types : List String
known_types =
    "WMII" ∷ "Perception" ∷ "Wizard" ∷ "GroWeather" ∷ "Energy" ∷ "Health" ∷ "VantagePro" ∷ []

-- The classes that StationFactory::newStation makes for a station type.
pub data StationClass : Type 0 where
  wmii groweather energy health vantage_pro : StationClass

abbrev pub new_station : String → Result StationClass
new_station t =
    if str_eq t "WMII"
    then ok wmii
    else if str_eq t "Perception"
    then ok wmii
    else if str_eq t "Wizard"
    then ok wmii
    else if str_eq t "GroWeather"
    then ok groweather
    else if str_eq t "Energy"
    then ok energy
    else if str_eq t "Health"
    then ok health
    else if str_eq t "VantagePro"
    then ok vantage_pro
    else err unknown_station

-- The type that the constructor of a class asks ReaderInfo for.
abbrev pub reader_type : StationClass → String
reader_type wmii = "WMII"
reader_type groweather = "GroWeather"
reader_type energy = "Energy"
reader_type health = "Health"
reader_type vantage_pro = "VantagePro"

-- The packet size that the constructor hands to DavisStation.
abbrev pub packet_size : StationClass → ℕ
packet_size wmii = 18
packet_size groweather = 36
packet_size energy = 30
packet_size health = 28
packet_size vantage_pro = 99
