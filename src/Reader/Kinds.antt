-- ===== src/Reader/Kinds.antt =====
-- lib/TemperatureReader.cc, lib/ExtraTemperatureReader.cc, lib/OldTemperatureReader.cc,
-- lib/BarometerReader.cc, lib/RainReader.cc, lib/RainRateReader.cc, lib/UVReader.cc, lib/VoltageReader.cc,
-- lib/TimeReader.cc and the wind readers; lib/BasicPacketReader.cc. The virtual functions are
-- functions by clauses on the kind of the reader.
pub mod Validity
use meteo.Base.{
  ℕ, ◌+◌, ◌*◌, ◌/◌, ◌%◌, ◌≡◌, refl, Bool, true, false, not, ◌&&◌, ◌||◌, List, Result, ok, err,
  invalid_data, ◌>>=◌, ltb, if◌then◌else◌, String,
}
use meteo.Base.Int.{ℤ, pos}
use meteo.Base.Double.{Double}
use meteo.Reader.Raw.{
  byte_at, byte_valid, byte_value, short_valid, short_value, nibble_valid, nibble_value,
}
use meteo.Reader.Calibrator.{Calibrator, identity, apply}

-- The classes that derive from BasicPacketReader, with the arguments of their constructors.
pub data Kind : Type 0 where
  byte : ℕ → Bool → Kind
  short : ℕ → Bool → Bool → Kind
  nibble : ℕ → Bool → ℕ → Kind
  temperature extra_temperature old_temperature barometer rain rain_rate uv voltage time : ℕ → Kind
  old_wind : ℕ → Kind
  wmii_wind vantage_pro_wind : Kind

-- `a && b` of two tests that may throw: the second is made only if the first holds.
abbrev both : Result Bool → Result Bool → Result Bool
both m n = m >>= λ a. if a then n else ok false

-- TimeReader::valid
time_valid : ℕ → List ℕ → Result Bool
time_valid offset packet = do
  h ← byte_at packet offset
  m ← byte_at packet (offset + 1)
  ok (not (ltb 23 h || ltb 59 m))

-- The wind readers' `valid`: the direction first, then the speed.
abbrev old_wind_valid : ℕ → List ℕ → Result Bool
old_wind_valid o packet = both (nibble_valid (o + 1) false 3 packet) (byte_valid o false packet)

abbrev wmii_wind_valid : List ℕ → Result Bool
wmii_wind_valid packet = both (short_valid 6 false true packet) (byte_valid 5 false packet)

abbrev vantage_pro_wind_valid : List ℕ → Result Bool
vantage_pro_wind_valid packet = both (short_valid 16 false true packet) (byte_valid 14 false packet)

-- The virtual function `valid`, which the other classes inherit from the raw readers.
pub valid : Kind → List ℕ → Result Bool
unfolding time_valid
valid (byte o s) packet = byte_valid o s packet
valid (short o s l) packet = short_valid o s l packet
valid (nibble o s n) packet = nibble_valid o s n packet
valid (temperature o) packet = short_valid o true true packet
valid (extra_temperature o) packet = byte_valid o false packet
valid (old_temperature o) packet = nibble_valid o true 3 packet
valid (barometer o) packet = short_valid o false true packet
valid (rain o) packet = short_valid o false true packet
valid (rain_rate o) packet = byte_valid o false packet
valid (uv o) packet = byte_valid o false packet
valid (voltage o) packet = short_valid o false true packet
valid (time o) packet = time_valid o packet
valid (old_wind o) packet = old_wind_valid o packet
valid wmii_wind packet = wmii_wind_valid packet
valid vantage_pro_wind packet = vantage_pro_wind_valid packet

-- `today h m` is the time of hour `h`, minute `m` of the current local day, from `time`, `localtime`
-- and `mktime` of the C library.
module _ {D : Type 0} ⦃d : Double D⦄ (today : ℕ → ℕ → ℤ) where
  -- The integer of a raw reader as a double.
  unfoldable pub as_double : Result ℤ → Result D
  as_double m = m >>= λ z. ok (d.of_int z)

  -- TimeReader::value; the station's time is 100 * hour + minute.
  time_value : ℕ → List ℕ → Result D
  time_value offset packet = do
    lowbyte ← byte_at packet offset
    highbyte ← byte_at packet (offset + 1)
    let stationtime = highbyte * 256 + lowbyte
    ok (d.of_int (today (stationtime / 100) (stationtime % 100)))

  -- The `windspeedreader` member, read by its `operator()` with the calibrator it was made with.
  wind_speed : ℕ → List ℕ → Result D
  wind_speed offset packet =
      as_double (byte_value offset false packet) >>= λ x. ok (apply identity x)

  -- The `value` of each class.
  abbrev temperature_value : ℕ → List ℕ → Result D
  temperature_value o packet =
      as_double (short_value o true true packet) >>= λ x. ok (d.div x (d.lit (pos 10) 0))

  abbrev extra_temperature_value : ℕ → List ℕ → Result D
  extra_temperature_value o packet =
      as_double (byte_value o false packet) >>= λ x. ok (d.sub x (d.lit (pos 90) 0))

  abbrev old_temperature_value : ℕ → List ℕ → Result D
  old_temperature_value o packet =
      as_double (nibble_value o true 3 packet) >>= λ x. ok (d.div x (d.lit (pos 10) 0))

  abbrev barometer_value : ℕ → List ℕ → Result D
  barometer_value o packet =
      as_double (short_value o false true packet) >>= λ x. ok (d.div x (d.lit (pos 1000) 0))

  abbrev rain_value : ℕ → List ℕ → Result D
  rain_value o packet =
      as_double (short_value o false true packet) >>= λ x. ok (d.div x (d.lit (pos 100) 0))

  abbrev rain_rate_value : ℕ → List ℕ → Result D
  rain_rate_value o packet =
      as_double (byte_value o false packet) >>= λ x. ok (d.div x (d.lit (pos 10) 0))

  abbrev uv_value : ℕ → List ℕ → Result D
  uv_value o packet = as_double (byte_value o false packet) >>= λ x. ok (d.div x (d.lit (pos 10) 0))

  abbrev voltage_value : ℕ → List ℕ → Result D
  voltage_value o packet = as_double (short_value o false true packet) >>= λ x.
      ok (d.div (d.mul (d.lit (pos 3) 0) x) (d.lit (pos 512) 0))

  abbrev vantage_pro_wind_value : List ℕ → Result D
  vantage_pro_wind_value packet = do
    ok_wind ← vantage_pro_wind_valid packet
    if ok_wind then wind_speed 14 packet else err invalid_data

  -- The virtual function `value`.
  unfoldable pub value : Kind → List ℕ → Result D
  unfolding as_double time_value wind_speed
  value (byte o s) packet = as_double (byte_value o s packet)
  value (short o s l) packet = as_double (short_value o s l packet)
  value (nibble o s n) packet = as_double (nibble_value o s n packet)
  value (temperature o) packet = temperature_value o packet
  value (extra_temperature o) packet = extra_temperature_value o packet
  value (old_temperature o) packet = old_temperature_value o packet
  value (barometer o) packet = barometer_value o packet
  value (rain o) packet = rain_value o packet
  value (rain_rate o) packet = rain_rate_value o packet
  value (uv o) packet = uv_value o packet
  value (voltage o) packet = voltage_value o packet
  value (time o) packet = time_value o packet
  value (old_wind o) packet = wind_speed o packet
  value wmii_wind packet = wind_speed 5 packet
  value vantage_pro_wind packet = vantage_pro_wind_value packet

  -- BasicPacketReader: the calibrated reading.
  unfoldable pub read : Kind → Calibrator D → List ℕ → Result D
  read k cal packet = value k packet >>= λ x. ok (apply cal x)
