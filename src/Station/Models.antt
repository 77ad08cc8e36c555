-- ===== src/Station/Models.antt =====
-- lib/WMII.cc, lib/GroWeather.cc, lib/Energy.cc, lib/Health.cc and lib/VantagePro.cc: the constructors of the
-- station classes, which ask the station for its calibration numbers.
pub mod Laws
pub mod Wmii
pub mod Energy
use Prim.Native.Nat.{bit_and}
use meteo.Base.{
  ℕ, zero, suc, ◌+◌, ◌-◌, ◌/◌, ◌==◌, Bool, true, false, List, [], ◌∷◌, Result, ok, err,
  if◌then◌else◌, String, get_or,
}
use Prim.Native.String.{◌++◌ as ◌+s◌}
use meteo.Base.Int.{ℤ, pos}
use meteo.Base.Double.{Double}
use meteo.Base
use meteo.Reader.Kinds.{Kind}
use meteo.Reader.Kinds
use meteo.Reader.Calibrator.{Calibrator, identity, linear, set_topclip, set_bottomclip}
use meteo.Reader.Tables.{
  wmii_readers, groweather_readers, energy_readers, health_readers, vantage_pro_readers,
}
use meteo.Channel.{M, pure, ◌>>=◌, ◌>>◌}
use meteo.Davis.{read_bytes, eeprom, wakeup}
use meteo.Station.{Readers, add_all_readers, calibrate_reader, has_reader}

-- A step that does not use the line.
abbrev pub offline : {A : Type 0} → Result A → M A
offline r c = (r, c)

-- The reader of a calibration number of two bytes.
abbrev pub raw_short : Bool → Kind
raw_short sign = Kind.short 1 sign true

module _ {D : Type 0} ⦃d : Double D⦄ where
  abbrev pub over : D → D → D
  over x y = d.div x y

  abbrev pub int : ℕ → D
  int n = d.lit (pos n) 0

  -- Calibrator(1., x), its clipping to a percentage, Calibrator(x, 0.) and the shift down by x
  unfoldable pub shift : D → Calibrator D
  unfolding linear
  shift x = linear (int 1) x

  unfoldable pub percent : Calibrator D → Calibrator D
  unfolding set_topclip set_bottomclip
  percent c = set_bottomclip (int 0) (set_topclip (int 100) c)

  unfoldable pub factor : D → Calibrator D
  unfolding linear
  factor x = linear x (int 0)

  -- calibrateReader, one reader after the other
  unfoldable pub calibrate_all : List (String × Calibrator D) → Readers D → Result (Readers D)
  unfolding calibrate_reader
  calibrate_all [] readers = ok readers
  calibrate_all ((n, c) ∷ more) readers =
      Base.◌>>=◌ (calibrate_reader n c readers) (λ readers'. calibrate_all more readers')

  -- Calibrator(0., x)
  unfoldable pub constant : D → Calibrator D
  unfolding linear
  constant x = linear (int 0) x

module _ {D : Type 0} ⦃d : Double D⦄ (field_class : String → Result String) where
  -- addAllReaders on the station's table
  abbrev pub added : List meteo.Reader.Tables.Entry → Readers D
  added table = (add_all_readers field_class table ([], 0)).0

module _ {D : Type 0} ⦃d : Double D⦄ (today : ℕ → ℕ → ℤ) where
  -- The number in the reply to a readBytes, by a reader with no calibration.
  unfoldable pub number : Kind → ℕ → ℕ → ℕ → M D
  unfolding read_bytes Kinds.read
  number reader bank offset count =
      read_bytes bank offset count >>= λ reply. offline (Kinds.read today reader identity reply)

module _ {D : Type 0} ⦃d : Double D⦄ (field_class : String → Result String)
    (today : ℕ → ℕ → ℤ) where
  -- WMII::WMII
  unfoldable pub wmii : M (Readers D)
  unfolding number shift factor percent calibrate_all
  wmii = number today (raw_short false) 1 0xd6 2 >>= λ rain_cal.
      number today (raw_short true) 1 0x2c 2 >>= λ pressure.
      number today (Kind.temperature 1) 1 0x78 2 >>= λ temperature_cal.
      number today (Kind.temperature 1) 1 0x52 2 >>= λ temperature_inside_cal.
      number today (raw_short true) 1 0xda 1 >>= λ humidity_cal. offline (
        calibrate_all
          (("outside.rain", factor (over (int 100) rain_cal))
            ∷ ("outside.temperature", shift temperature_cal)
            ∷ ("inside.temperature", shift temperature_inside_cal)
            ∷ ("outside.humidity", percent (shift humidity_cal))
            ∷ ("inside.barometer", shift (d.neg (over pressure (int 1000))))
            ∷ [])
          (added field_class wmii_readers))

  -- GroWeather::GroWeather
  unfoldable pub groweather : M (Readers D)
  unfolding number shift factor percent calibrate_all
  groweather = number today (raw_short false) 1 0xcf 2 >>= λ rain_cal.
      number today (raw_short true) 1 0x20 2 >>= λ pressure.
      number today (Kind.nibble 1 true 3) 1 0x51 2 >>= λ temperature_cal.
      number today (Kind.nibble 1 true 3) 1 0x3f 2 >>= λ soiltemperature_cal.
      number today (raw_short true) 1 0x85 1 >>= λ humidity_cal.
      number today (raw_short false) 0 0x6a 2 >>= λ speed_cal. offline (
        calibrate_all
          (("soil.temperature", shift soiltemperature_cal)
            ∷ ("outside.temperature", shift temperature_cal)
            ∷ ("inside.barometer", shift (d.neg (over pressure (int 1000))))
            ∷ ("outside.humidity", percent (shift humidity_cal))
            ∷ ("outside.wind", factor (over (int 1600) speed_cal))
            ∷ ("outside.rain", factor (over (int 100) rain_cal))
            ∷ [])
          (added field_class groweather_readers))

  -- Energy::Energy: the temperatures with a slope of 0, and with each other's numbers
  unfoldable pub energy : M (Readers D)
  unfolding number shift factor percent calibrate_all constant
  energy = number today (raw_short false) 1 0xca 2 >>= λ rain_cal.
      number today (raw_short true) 1 0x18 2 >>= λ pressure.
      number today (Kind.nibble 1 true 3) 1 0x45 2 >>= λ temperature_cal.
      number today (Kind.nibble 1 true 3) 1 0x33 2 >>= λ temperature_inside_cal.
      number today (Kind.byte 1 true) 1 0x94 1 >>= λ humidity_cal.
      number today (raw_short false) 0 0x6a 2 >>= λ speed_cal. offline (
        calibrate_all
          (("inside.temperature", constant (over temperature_cal (int 10)))
            ∷ ("outside.temperature", constant (over temperature_inside_cal (int 10)))
            ∷ ("outside.rain", factor (over (int 100) rain_cal))
            ∷ ("outside.wind", factor (over (int 1600) speed_cal))
            ∷ ("inside.barometer", shift (d.neg (over pressure (int 1000))))
            ∷ ("outside.humidity", percent (shift humidity_cal))
            ∷ [])
          (added field_class energy_readers))

  -- Health::Health: both clips of the humidity are at 100
  unfoldable pub health : M (Readers D)
  unfolding number shift factor calibrate_all set_topclip set_bottomclip
  health = number today (raw_short false) 0 0x6a 2 >>= λ speed_cal.
      number today (raw_short false) 1 0xb9 2 >>= λ rain_cal.
      number today (raw_short true) 1 0x2c 2 >>= λ pressure.
      number today (Kind.nibble 1 true 3) 1 0x51 2 >>= λ temperature.
      number today (Kind.nibble 1 true 3) 1 0x39 2 >>= λ temperature_inside.
      number today (raw_short true) 1 0x90 1 >>= λ humidity_cal. offline (
        calibrate_all
          (("inside.temperature", shift (over temperature_inside (int 10)))
            ∷ ("outside.temperature", shift (over temperature (int 10)))
            ∷ ("outside.rain", factor (over (int 100) rain_cal))
            ∷ ("outside.wind", factor (over (int 1600) speed_cal))
            ∷ ("inside.barometer", shift (d.neg (over pressure (int 1000))))
            ∷ (
              "outside.humidity",
              set_bottomclip (int 100) (set_topclip (int 100) (shift humidity_cal)),
            )
            ∷ [])
          (added field_class health_readers))

-- "extra%d.temperature" and its like, with `digit` for the `%d` of snprintf
abbrev pub numbered : (ℕ → String) → String → ℕ → String → String
numbered digit front i back = front +s (digit (i + 1) +s back)

module _ {D : Type 0} ⦃d : Double D⦄ (today : ℕ → ℕ → ℤ) where
  -- A calibration byte of the EEPROM, by its address.
  unfoldable pub cal_byte : ℕ → List ℕ → Result D
  unfolding Kinds.value
  cal_byte address packet = Kinds.value today (Kind.byte (address - 0x32) true) packet

  -- The calibrators made of such a byte: a shift by a tenth of it, by itself, and a clipped one
  unfoldable pub tenth_of : ℕ → List ℕ → Result (Calibrator D)
  unfolding shift
  tenth_of address packet = Base.◌>>=◌ (cal_byte address packet) (λ x. ok (shift (over x (int 10))))

  unfoldable pub whole_of : ℕ → List ℕ → Result (Calibrator D)
  unfolding shift
  whole_of address packet = Base.◌>>=◌ (cal_byte address packet) (λ x. ok (shift x))

  unfoldable pub percent_of : ℕ → List ℕ → Result (Calibrator D)
  unfolding shift percent
  percent_of address packet = Base.◌>>=◌ (cal_byte address packet) (λ x. ok (percent (shift x)))

module _ {D : Type 0} ⦃d : Double D⦄ where
  -- `if (hasReader(f)) calibrateReader(f, ...)` for `count` sensors from number `i` on; the number is read
  -- only where there is a reader.
  unfoldable pub calibrate_some :
      (ℕ → String) → (ℕ → Result (Calibrator D)) → ℕ → ℕ → Readers D → Result (Readers D)
  unfolding calibrate_reader has_reader
  calibrate_some name cal zero i readers = ok readers
  calibrate_some name cal (suc count) i readers =
      let changed = Base.◌>>=◌ (cal i) (λ c. calibrate_reader (name i) c readers) in
      let next = if has_reader (name i) readers then changed else ok readers in
      Base.◌>>=◌ next (calibrate_some name cal count (i + 1))

  -- The rain collector, from two bits of a byte
  unfoldable pub rain_collector : ℕ → Readers D → Result (Readers D)
  unfolding factor calibrate_all
  rain_collector byte readers =
      let kind = bit_and 0x30 byte / 16 in
      let both =
        λ (c : Calibrator D). calibrate_all (("iss.rain", c) ∷ ("iss.rainrate", c) ∷ []) readers in
      let mm = both (factor (d.div (d.lit (pos 1) 0) (d.lit (pos 127) 2))) in
      let tenth = both (factor (d.div (d.lit (pos 1) 0) (d.lit (pos 254) 2))) in
      if kind == 1 then mm else if kind == 2 then tenth else ok readers

  -- calibrateReader with a calibrator whose number may be missing
  unfoldable pub calibrate_by : String → Result (Calibrator D) → Readers D → Result (Readers D)
  unfolding calibrate_reader
  calibrate_by name cal readers = Base.◌>>=◌ cal (λ c. calibrate_reader name c readers)
