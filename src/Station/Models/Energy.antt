-- ===== src/Station/Models/Energy.antt =====
-- What the constructor of lib/Energy.cc makes of the numbers that a station sends.
use meteo.Base.{
  ℕ, ◌≡◌, refl, ◌∙◌, ap, All, true, false, List, [], ◌∷◌, ◌++◌, none, some, ok, String,
}
use meteo.Base.Int.{ℤ, pos}
use meteo.Base.Double.{Double}
use meteo.Reader.Kinds.{Kind}
use meteo.Reader.Kinds
use meteo.Reader.Calibrator.{Calibrator, identity, linear, set_topclip, set_bottomclip}
use meteo.Reader.Tables.{energy_readers}
use meteo.Channel.{Input, char}
use meteo.Station.{Readers, calibrate_reader}
use meteo.Station.Models.{raw_short, calibrate_all, added, shift, percent, factor, constant, energy}
use meteo.Station.Models.Laws.{line, command, number_of_two, number_of_one, cal_of, made}

-- The requests of Energy::Energy.
abbrev pub energy_commands : List ℕ
energy_commands =
    command 68 0xca
    ++ (command 68 0x18
        ++ (command 68 0x45 ++ (command 68 0x33 ++ (command 36 0x94 ++ command 68 0x6a))))

module _ {D : Type 0} ⦃d : Double D⦄ where
  abbrev plain : D → D → Calibrator D
  plain slope y0 = record { slope = slope; y0 = y0; topclip = none; bottomclip = none }

  abbrev number : ℕ → D
  number n = d.lit (pos n) 0

  -- The calibrations of Energy::Energy, by slope, offset and clip levels: the temperatures have the slope 0.
  abbrev pub energy_calibrators : D → D → D → D → D → D → List (String × Calibrator D)
  energy_calibrators rain pressure temperature inside humidity speed =
      ("inside.temperature", plain (number 0) (d.div temperature (number 10)))
      ∷ ("outside.temperature", plain (number 0) (d.div inside (number 10)))
      ∷ ("outside.rain", plain (d.div (number 100) rain) (number 0))
      ∷ ("outside.wind", plain (d.div (number 1600) speed) (number 0))
      ∷ ("inside.barometer", plain (number 1) (d.neg (d.div pressure (number 1000))))
      ∷ (
        "outside.humidity",
        record {
          slope = number 1;
          y0 = humidity;
          topclip = some (number 100);
          bottomclip = some (number 0);
        },
      )
      ∷ []

  module _ (today : ℕ → ℕ → ℤ) (cls : String → String) where
    energy_numbers :
        (r1 r2 p1 p2 t1 t2 i1 i2 h s1 s2 : ℕ) (rain pressure temperature inside humidity speed : D)
        (rest : List Input)
        → Kinds.read today (raw_short false) identity (6 ∷ r1 ∷ r2 ∷ []) ≡ ok rain
        → Kinds.read today (raw_short true) identity (6 ∷ p1 ∷ p2 ∷ []) ≡ ok pressure
        → Kinds.read today (Kind.nibble 1 true 3) identity (6 ∷ t1 ∷ t2 ∷ []) ≡ ok temperature
        → Kinds.read today (Kind.nibble 1 true 3) identity (6 ∷ i1 ∷ i2 ∷ []) ≡ ok inside
        → Kinds.read today (Kind.byte 1 true) identity (6 ∷ h ∷ []) ≡ ok humidity
        → Kinds.read today (raw_short false) identity (6 ∷ s1 ∷ s2 ∷ []) ≡ ok speed
        → energy
            (λ n. ok (cls n))
            today
            (line [] (
              char 6
              ∷ char r1
              ∷ char r2
              ∷ char 6
              ∷ char p1
              ∷ char p2
              ∷ char 6
              ∷ char t1
              ∷ char t2
              ∷ char 6
              ∷ char i1
              ∷ char i2
              ∷ char 6
              ∷ char h
              ∷ char 6
              ∷ char s1
              ∷ char s2
              ∷ rest))
          ≡ (
            calibrate_all
                (energy_calibrators rain pressure temperature inside humidity speed)
                (added (λ n. ok (cls n)) energy_readers),
            line energy_commands rest,
          )
    unfolding energy constant factor shift percent linear set_topclip set_bottomclip
    energy_numbers r1 r2 p1 p2 t1 t2 i1 i2 h s1 s2 rain pressure temperature inside humidity speed
          rest e1 e2 e3 e4 e5 e6 =
        rw
          (
            number_of_two today (raw_short false) 1 0xca r1 r2 rain [] _ e1,
            number_of_two today (raw_short true) 1 0x18 p1 p2 pressure _ _ e2,
            number_of_two today (Kind.nibble 1 true 3) 1 0x45 t1 t2 temperature _ _ e3,
            number_of_two today (Kind.nibble 1 true 3) 1 0x33 i1 i2 inside _ _ e4,
            number_of_one today (Kind.byte 1 true) 1 0x94 h humidity _ _ e5,
            number_of_two today (raw_short false) 0 0x6a s1 s2 speed _ _ e6,
          )
          refl

    energy_made :
        (rain pressure temperature inside humidity speed : D)
        → let cs = energy_calibrators rain pressure temperature inside humidity speed in
          let result = calibrate_all cs (added (λ n. ok (cls n)) energy_readers) in
          (result ≡ ok (made result)) × All (λ e. cal_of (made result) e.0 ≡ some e.1) cs
    unfolding calibrate_all calibrate_reader
    energy_made rain pressure temperature inside humidity speed =
        (refl, (refl, (refl, (refl, (refl, (refl, (refl, _)))))))

    -- Where the database knows a class for each field, and the station answers the six requests of
    -- Energy::Energy with numbers that are valid: the constructor succeeds, takes the replies off the line and no
    -- more, and leaves the temperature readers with slope 0, each at the tenth of the other's number, the rain and the
    -- wind with the slopes that their numbers give, the barometer shifted down by its number over 1000, and
    -- the humidity shifted by its number and clipped to 0 and 100.
    pub energy_lem :
        (r1 r2 p1 p2 t1 t2 i1 i2 h s1 s2 : ℕ) (rain pressure temperature inside humidity speed : D)
        (rest : List Input)
        → Kinds.read today (raw_short false) identity (6 ∷ r1 ∷ r2 ∷ []) ≡ ok rain
        → Kinds.read today (raw_short true) identity (6 ∷ p1 ∷ p2 ∷ []) ≡ ok pressure
        → Kinds.read today (Kind.nibble 1 true 3) identity (6 ∷ t1 ∷ t2 ∷ []) ≡ ok temperature
        → Kinds.read today (Kind.nibble 1 true 3) identity (6 ∷ i1 ∷ i2 ∷ []) ≡ ok inside
        → Kinds.read today (Kind.byte 1 true) identity (6 ∷ h ∷ []) ≡ ok humidity
        → Kinds.read today (raw_short false) identity (6 ∷ s1 ∷ s2 ∷ []) ≡ ok speed
        → (readers : Readers D) × (energy
              (λ n. ok (cls n))
              today
              (line [] (
                char 6
                ∷ char r1
                ∷ char r2
                ∷ char 6
                ∷ char p1
                ∷ char p2
                ∷ char 6
                ∷ char t1
                ∷ char t2
                ∷ char 6
                ∷ char i1
                ∷ char i2
                ∷ char 6
                ∷ char h
                ∷ char 6
                ∷ char s1
                ∷ char s2
                ∷ rest))
            ≡ (ok readers, line energy_commands rest))
          × All
              (λ e. cal_of readers e.0 ≡ some e.1)
              (energy_calibrators rain pressure temperature inside humidity speed)
    energy_lem r1 r2 p1 p2 t1 t2 i1 i2 h s1 s2 rain pressure temperature inside humidity speed rest
          e1 e2 e3 e4 e5 e6 =
        let (done, calibrated) = energy_made rain pressure temperature inside humidity speed in
        (
          made (
              calibrate_all (energy_calibrators rain pressure temperature inside humidity speed)
                (added (λ n. ok (cls n)) energy_readers)),
          energy_numbers r1 r2 p1 p2 t1 t2 i1 i2 h s1 s2 rain pressure temperature inside humidity
                speed rest e1 e2 e3 e4 e5 e6
              ∙ ap (λ r. (r, line energy_commands rest)) done,
          calibrated,
        )
