-- ===== src/Station/Models/Wmii.antt =====
-- What the constructor of lib/WMII.cc makes of the numbers that a station sends.
use meteo.Base.{ℕ, ◌≡◌, refl, ◌∙◌, ap, All, true, false, List, [], ◌∷◌, ◌++◌, some, ok, String}
use meteo.Base.Int.{ℤ}
use meteo.Base.Double.{Double}
use meteo.Reader.Kinds.{Kind}
use meteo.Reader.Kinds
use meteo.Reader.Calibrator.{Calibrator, identity}
use meteo.Reader.Tables.{wmii_readers}
use meteo.Channel.{Input, char}
use meteo.Station.{Readers, calibrate_reader}
use meteo.Station.Models.{raw_short, calibrate_all, added, shift, percent, factor, int, over, wmii}
use meteo.Station.Models.Laws.{line, command, number_of_two, number_of_one, cal_of, made}

-- The requests of WMII::WMII.
abbrev pub wmii_commands : List ℕ
wmii_commands =
    command 68 0xd6
    ++ (command 68 0x2c ++ (command 68 0x78 ++ (command 68 0x52 ++ command 36 0xda)))

module _ {D : Type 0} ⦃d : Double D⦄ where
  -- The calibrations of WMII::WMII.
  abbrev pub wmii_calibrators : D → D → D → D → D → List (String × Calibrator D)
  wmii_calibrators rain pressure temperature inside humidity =
      ("outside.rain", factor (over (int 100) rain))
      ∷ ("outside.temperature", shift temperature)
      ∷ ("inside.temperature", shift inside)
      ∷ ("outside.humidity", percent (shift humidity))
      ∷ ("inside.barometer", shift (d.neg (over pressure (int 1000))))
      ∷ []

  module _ (today : ℕ → ℕ → ℤ) (cls : String → String) where
    wmii_numbers :
        (r1 r2 p1 p2 t1 t2 i1 i2 h : ℕ) (rain pressure temperature inside humidity : D)
        (rest : List Input)
        → Kinds.read today (raw_short false) identity (6 ∷ r1 ∷ r2 ∷ []) ≡ ok rain
        → Kinds.read today (raw_short true) identity (6 ∷ p1 ∷ p2 ∷ []) ≡ ok pressure
        → Kinds.read today (Kind.temperature 1) identity (6 ∷ t1 ∷ t2 ∷ []) ≡ ok temperature
        → Kinds.read today (Kind.temperature 1) identity (6 ∷ i1 ∷ i2 ∷ []) ≡ ok inside
        → Kinds.read today (raw_short true) identity (6 ∷ h ∷ []) ≡ ok humidity
        → wmii
            (λ n. ok (cls n))
            today
            (line [] (
              char 6
              ∷ char r1
              ∷ char r2
              ∷ char 6
              ∷ char p1
              ∷ char p2
              ∷ char 6
              ∷ char t1
              ∷ char t2
              ∷ char 6
              ∷ char i1
              ∷ char i2
              ∷ char 6
              ∷ char h
              ∷ rest))
          ≡ (
            calibrate_all
                (wmii_calibrators rain pressure temperature inside humidity)
                (added (λ n. ok (cls n)) wmii_readers),
            line wmii_commands rest,
          )
    unfolding wmii
    wmii_numbers r1 r2 p1 p2 t1 t2 i1 i2 h rain pressure temperature inside humidity rest e1 e2 e3
          e4 e5 =
        rw
          (
            number_of_two today (raw_short false) 1 0xd6 r1 r2 rain [] _ e1,
            number_of_two today (raw_short true) 1 0x2c p1 p2 pressure _ _ e2,
            number_of_two today (Kind.temperature 1) 1 0x78 t1 t2 temperature _ _ e3,
            number_of_two today (Kind.temperature 1) 1 0x52 i1 i2 inside _ _ e4,
            number_of_one today (raw_short true) 1 0xda h humidity _ _ e5,
          )
          refl

    wmii_made :
        (rain pressure temperature inside humidity : D)
        → let cs = wmii_calibrators rain pressure temperature inside humidity in
          let result = calibrate_all cs (added (λ n. ok (cls n)) wmii_readers) in
          (result ≡ ok (made result)) × All (λ e. cal_of (made result) e.0 ≡ some e.1) cs
    unfolding calibrate_all calibrate_reader
    wmii_made rain pressure temperature inside humidity =
        (refl, (refl, (refl, (refl, (refl, (refl, _))))))

    -- Where the database knows a class for each field, and the station answers the five requests of WMII::WMII
    -- with numbers that are valid: the constructor succeeds, takes the replies off the line and no more, and each
    -- of the five readers is calibrated by its own number.
    pub wmii_lem :
        (r1 r2 p1 p2 t1 t2 i1 i2 h : ℕ) (rain pressure temperature inside humidity : D)
        (rest : List Input)
        → Kinds.read today (raw_short false) identity (6 ∷ r1 ∷ r2 ∷ []) ≡ ok rain
        → Kinds.read today (raw_short true) identity (6 ∷ p1 ∷ p2 ∷ []) ≡ ok pressure
        → Kinds.read today (Kind.temperature 1) identity (6 ∷ t1 ∷ t2 ∷ []) ≡ ok temperature
        → Kinds.read today (Kind.temperature 1) identity (6 ∷ i1 ∷ i2 ∷ []) ≡ ok inside
        → Kinds.read today (raw_short true) identity (6 ∷ h ∷ []) ≡ ok humidity
        → (readers : Readers D) × (wmii
              (λ n. ok (cls n))
              today
              (line [] (
                char 6
                ∷ char r1
                ∷ char r2
                ∷ char 6
                ∷ char p1
                ∷ char p2
                ∷ char 6
                ∷ char t1
                ∷ char t2
                ∷ char 6
                ∷ char i1
                ∷ char i2
                ∷ char 6
                ∷ char h
                ∷ rest))
            ≡ (ok readers, line wmii_commands rest))
          × All
              (λ e. cal_of readers e.0 ≡ some e.1)
              (wmii_calibrators rain pressure temperature inside humidity)
    wmii_lem r1 r2 p1 p2 t1 t2 i1 i2 h rain pressure temperature inside humidity rest e1 e2 e3 e4
          e5 =
        let (done, calibrated) = wmii_made rain pressure temperature inside humidity in
        (
          made (
              calibrate_all (wmii_calibrators rain pressure temperature inside humidity)
                (added (λ n. ok (cls n)) wmii_readers)),
          wmii_numbers r1 r2 p1 p2 t1 t2 i1 i2 h rain pressure temperature inside humidity rest e1
                e2 e3 e4 e5
              ∙ ap (λ r. (r, line wmii_commands rest)) done,
          calibrated,
        )
