-- ===== src/Reader/Values.antt =====
-- The `v` of lib/BasicPacketReader.cc and of the wind readers: a reading with its class and unit.
use meteo.Base.{
  ℕ, ◌+◌, true, false, List, Result, ok, err, ◌>>=◌, invalid_data, if◌then◌else◌, String,
}
use meteo.Base.Int.{ℤ, pos}
use meteo.Base.Double.{Double}
use meteo.Reader.Raw.{byte_value, short_value, nibble_value}
use meteo.Reader.Calibrator.{Calibrator, identity, apply}
use meteo.Reader.Kinds.{Kind, read, valid}
use meteo.Vector.{Libm, polar}
use meteo.Value.Quantity.{Quantity, new_basic_value, of_vector, to_unsigned_short}

module _ {D : Type 0} ⦃d : Double D⦄ ⦃c : Libm D⦄ (today : ℕ → ℕ → ℤ) (azi : D) where
  -- The raw integers of a wind reader, the speed first.
  unfoldable pub wind : Result ℤ → Result ℤ → (D → D) → Result (Quantity D)
  unfolding of_vector polar
  wind speed direction rounded = speed >>= λ s.
      direction >>= λ a. ok (of_vector (polar (d.of_int s) (rounded (d.of_int a)) true) "mph")

  -- OldWindReader::v, WMIIWindReader::v and VantageProWindReader::v; the readers of the last are called
  -- with the calibrators they were made with.
  abbrev pub old_wind_v : ℕ → List ℕ → Result (Quantity D)
  old_wind_v o packet =
      wind (byte_value o false packet) (nibble_value (o + 1) false 3 packet)
        (λ x. d.of_int (pos (to_unsigned_short (d.trunc x))))

  abbrev pub wmii_wind_v : List ℕ → Result (Quantity D)
  wmii_wind_v packet =
      wind (byte_value 5 false packet) (short_value 6 false true packet) (λ x. d.of_int (d.trunc x))

  unfoldable pub vantage_pro_wind_v : List ℕ → Result (Quantity D)
  unfolding of_vector polar
  vantage_pro_wind_v packet = valid Kind.vantage_pro_wind packet >>= λ good.
      let w = byte_value 14 false packet >>= λ s. short_value 16 false true packet >>= λ a.
      ok (
        of_vector (polar (apply identity (d.of_int s)) (apply identity (d.of_int a)) true) "mph") in
      if good then w else err invalid_data

  -- BasicPacketReader::v, which the wind readers override
  unfoldable pub basic_v : Kind → Calibrator D → String → String → List ℕ → Result (Quantity D)
  unfolding new_basic_value
  basic_v k cal classname unit packet =
      read today k cal packet >>= λ f. new_basic_value azi classname f unit

  unfoldable pub v : Kind → Calibrator D → String → String → List ℕ → Result (Quantity D)
  v (Kind.old_wind o) cal classname unit packet = old_wind_v o packet
  v Kind.wmii_wind cal classname unit packet = wmii_wind_v packet
  v Kind.vantage_pro_wind cal classname unit packet = vantage_pro_wind_v packet
  v k cal classname unit packet = basic_v k cal classname unit packet
