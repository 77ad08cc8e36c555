-- ===== src/Tests/Models.antt =====
-- The constructors of two station classes on the replies of a station.
use meteo.Base.{ℕ, ◌≡◌, refl, All, true, false, [], ◌∷◌, some, ok, String}
use meteo.Base.Int.{ℤ, pos, ◌+ℤ◌, ◌-ℤ◌}
use meteo.Base.Double.{int_double}
use meteo.Reader.Kinds.{Kind, read, value, as_double}
use meteo.Reader.Raw.{
  byte_at, byte_valid, byte_value, short_at, short_valid, short_value, get_nibble, raw_loop,
  raw_value, nibble_valid, extend_sign, nibble_value,
}
use meteo.Reader.Calibrator.{identity, apply, clip_top, clip_bottom}
use meteo.Channel.{char}
use meteo.Station.{Readers}
use meteo.Station.Models.{wmii, energy, raw_short}
use meteo.Station.Models.Laws.{line, cal_of}
use meteo.Station.Models.Wmii.{wmii_lem, wmii_calibrators, wmii_commands}
use meteo.Station.Models.Energy.{energy_lem, energy_calibrators, energy_commands}

abbrev midnight : ℕ → ℕ → ℤ
midnight h m = pos 0

abbrev class_of : String → String
class_of _ = "BasicValue"

rain_number : read midnight (raw_short false) identity (6 ∷ 100 ∷ 0 ∷ []) ≡ ok (pos 100)
unfolding read value as_double byte_at short_at short_valid short_value identity apply clip_top
    clip_bottom ◌+ℤ◌ ◌-ℤ◌
rain_number = refl

pressure_number : read midnight (raw_short true) identity (6 ∷ 232 ∷ 3 ∷ []) ≡ ok (pos 1000)
unfolding read value as_double byte_at short_at short_valid short_value identity apply clip_top
    clip_bottom ◌+ℤ◌ ◌-ℤ◌
pressure_number = refl

temperature_number : read midnight (Kind.temperature 1) identity (6 ∷ 30 ∷ 0 ∷ []) ≡ ok (pos 3)
unfolding read value as_double byte_at short_at short_valid short_value identity apply clip_top
    clip_bottom ◌+ℤ◌ ◌-ℤ◌
temperature_number = refl

humidity_number : read midnight (raw_short true) identity (6 ∷ 5 ∷ []) ≡ ok (pos 5)
unfolding read value as_double byte_at short_at short_valid short_value identity apply clip_top
    clip_bottom ◌+ℤ◌ ◌-ℤ◌
humidity_number = refl

nibble_number : read midnight (Kind.nibble 1 true 3) identity (6 ∷ 30 ∷ 0 ∷ []) ≡ ok (pos 30)
unfolding read value as_double byte_at get_nibble raw_loop raw_value nibble_valid extend_sign
    nibble_value identity apply clip_top clip_bottom ◌+ℤ◌ ◌-ℤ◌
nibble_number = refl

byte_number : read midnight (Kind.byte 1 true) identity (6 ∷ 5 ∷ []) ≡ ok (pos 5)
unfolding read value as_double byte_at byte_valid byte_value identity apply clip_top clip_bottom
    ◌+ℤ◌ ◌-ℤ◌
byte_number = refl

wmii_lem_example :
    (readers : Readers ℤ) × (wmii
        (λ n. ok (class_of n))
        midnight
        (line [] (
          char 6
          ∷ char 100
          ∷ char 0
          ∷ char 6
          ∷ char 232
          ∷ char 3
          ∷ char 6
          ∷ char 30
          ∷ char 0
          ∷ char 6
          ∷ char 30
          ∷ char 0
          ∷ char 6
          ∷ char 5
          ∷ []))
      ≡ (ok readers, line wmii_commands []))
    × All
        (λ e. cal_of readers e.0 ≡ some e.1)
        (wmii_calibrators (pos 100) (pos 1000) (pos 3) (pos 3) (pos 5))
wmii_lem_example =
    wmii_lem midnight class_of 100 0 232 3 30 0 30 0 5 (pos 100) (pos 1000) (pos 3) (pos 3) (pos 5)
      [] rain_number pressure_number temperature_number temperature_number humidity_number

energy_lem_example :
    (readers : Readers ℤ) × (energy
        (λ n. ok (class_of n))
        midnight
        (line [] (
          char 6
          ∷ char 100
          ∷ char 0
          ∷ char 6
          ∷ char 232
          ∷ char 3
          ∷ char 6
          ∷ char 30
          ∷ char 0
          ∷ char 6
          ∷ char 30
          ∷ char 0
          ∷ char 6
          ∷ char 5
          ∷ char 6
          ∷ char 100
          ∷ char 0
          ∷ []))
      ≡ (ok readers, line energy_commands []))
    × All
        (λ e. cal_of readers e.0 ≡ some e.1)
        (energy_calibrators (pos 100) (pos 1000) (pos 30) (pos 30) (pos 5) (pos 100))
energy_lem_example =
    energy_lem midnight class_of 100 0 232 3 30 0 30 0 5 100 0 (pos 100) (pos 1000) (pos 30)
      (pos 30) (pos 5) (pos 100) [] rain_number pressure_number nibble_number nibble_number
      byte_number rain_number
