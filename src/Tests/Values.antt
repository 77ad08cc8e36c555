-- ===== src/Tests/Values.antt =====
-- Readers, calibrators, times and levels.
use meteo.Base.{
  ℕ, ◌<◌, ◌≡◌, refl, true, false, List, [], ◌∷◌, ◌++◌, none, some, ok, length, All, arith,
}
use meteo.Base.Int.{ℤ, pos, negsuc}
use meteo.Base.Double.{int_double}
use meteo.Reader.Raw.{raw_value, byte_value, short_value}
use meteo.Reader.Raw.Nibbles.{number, raw_value-number}
use meteo.Reader.Raw.Encode.{to_short, short_bytes, byte_value_unsigned, short_value-to_short}
use meteo.Reader.Tables.{Entry, StationClass, get_readers, reader_type}
use meteo.Reader.Tables.Bounds.{Defined, tables-Defined}
use meteo.Reader.Calibrator.{Calibrator}
use meteo.Time.Timeval.{Timeval}
use meteo.Time.Timeval.Laws.{IsNormal}
use meteo.Time.Level.{Level, get_interval, get_duration, up}
use meteo.Time.Level.Laws.{up_longer}

-- The station's clock is not looked at.
abbrev no_clock : ℕ → ℕ → ℤ
no_clock _ _ = pos 0

abbrev front : List ℕ
front = 1 ∷ 7 ∷ []

raw_value-number_example :
    raw_value (length front) 3 (front ++ (52 ∷ 18 ∷ [])) ≡ ok (number (52 ∷ 18 ∷ []) 3)
raw_value-number_example =
    raw_value-number front (52 ∷ 18 ∷ []) 3 (omega arith, (omega arith, _)) (omega arith)
      (omega arith)

byte_value_unsigned_example : byte_value (length front) false (front ++ (200 ∷ [])) ≡ ok (pos 200)
byte_value_unsigned_example = byte_value_unsigned front [] 200 (omega arith)

short_value-to_short_example :
    short_value
      (length front)
      true
      false
      (front ++ (short_bytes false (to_short (negsuc 299)) ++ []))
    ≡ ok (negsuc 299)
short_value-to_short_example =
    short_value-to_short front [] false (negsuc 299) (omega arith) (omega arith)

-- A packet of the smallest station.
abbrev wmii_packet : List ℕ
wmii_packet = 1 ∷ 44 ∷ 2 ∷ 200 ∷ 1 ∷ 5 ∷ 90 ∷ 0 ∷ 32 ∷ 117 ∷ 40 ∷ 80 ∷ 10 ∷ 0 ∷ 0 ∷ 0 ∷ 17 ∷ 34 ∷ []

tables-Defined_example :
    (table : List Entry) × (get_readers (reader_type StationClass.wmii) ≡ some table)
    × All (Defined wmii_packet) table
tables-Defined_example = tables-Defined StationClass.wmii wmii_packet refl

abbrev humidity_cal : Calibrator ℤ
humidity_cal = record { slope = pos 1; y0 = pos 3; topclip = none; bottomclip = none }

abbrev some_time : Timeval
some_time = record { tv_sec = pos 1078000000; tv_usec = pos 600000 }

some_time-IsNormal : IsNormal some_time
some_time-IsNormal = record { low = omega arith; high = omega arith }

up_longer_example :
    (get_interval Level.day < get_interval Level.week)
    × (get_duration Level.day < get_duration Level.week)
unfolding up
up_longer_example = up_longer Level.day Level.week refl
