-- ===== src/Tests/Stations.antt =====
-- Recorders of a station, values behind handles, labels of times and scales.
use meteo.Base.{ℕ, ◌≡◌, ◌⊎◌, refl, false, List, [], ◌∷◌, ok, err, some, All, no_value}
use meteo.Base.Dict.{on}
use meteo.Base.Int.{ℤ, pos, negsuc}
use meteo.Base.Double.{int_double, int-IsOrdered}
use meteo.Vector.{Libm}
use meteo.Time.Timeval.{of_seconds}
use meteo.Reader.Kinds.{Kind}
use meteo.Reader.Calibrator.{identity}
use meteo.Recorder.Wind.{Wind}
use meteo.Recorder.Wind
use meteo.Recorder.Wind.Laws.{Gust, IsBelow, blow, blow-reset}
use meteo.Recorder.Factory.{Recorder, Body, value_of, fresh, fresh_wind}
use meteo.Station.{Readers}
use meteo.Sensor.{Sensors, Clock}
use meteo.Sensor.Laws.{Event, packet, minute, recorder_of, run, life, recorder_of-run}
use meteo.Sensor.Wind.{wind_recorder, value_of-run_wind}

-- Integers stand in for doubles, and functions for those of the C library.
instance abbrev pub int_libm : Libm ℤ
int_libm = record { sqrt = λ x. x; sin = λ x. x; cos = λ x. x; atan2 = λ y x. pos 0 }

abbrev pub no_day : ℕ → ℕ → ℤ
no_day h m = pos 0

abbrev pub readers : Readers ℤ
readers =
    (
      "outdoor.temperature",
      record {
        kind = Kind.byte 1 false;
        cal = identity;
        classname = "TemperatureValue";
        unit = "C";
      },
    )
    ∷ []

abbrev pub at_second : ℕ → Clock
at_second t _ = (of_seconds (pos t), of_seconds (pos t))

abbrev pub sensors : Sensors ℤ
sensors =
    (
      "outdoor",
      record {
        name = "outdoor";
        sensorid = 3;
        recorders =
            (
              "temperature",
              record {
                id = 0;
                classname = "TemperatureValue";
                unit = "C";
                body = Body.basic (fresh (of_seconds (pos 0)));
              },
            )
            ∷ [];
      },
    )
    ∷ []

abbrev events : List Event
events =
    packet (1 ∷ 21 ∷ []) (at_second 10)
    ∷ minute (of_seconds (pos 60))
    ∷ packet (1 ∷ 19 ∷ []) (at_second 70)
    ∷ []

recorder_of-run_example :
    recorder_of (run no_day (pos 0) readers events sensors) "outdoor" "temperature"
    ≡ on
        (life no_day (pos 0) readers events "outdoor.temperature")
        (recorder_of sensors "outdoor" "temperature")
recorder_of-run_example =
    recorder_of-run no_day (pos 0) readers events sensors "outdoor" "temperature" (refl, _)

abbrev wind_sensors : Sensors ℤ
wind_sensors =
    (
      "outdoor",
      record {
        name = "outdoor";
        sensorid = 3;
        recorders = ("wind", wind_recorder 0 "Wind" "m/s" (fresh_wind (of_seconds (pos 0)))) ∷ [];
      },
    )
    ∷ []

abbrev wind_readers : Readers ℤ
wind_readers =
    (
      "outdoor.wind",
      record { kind = Kind.wmii_wind; cal = identity; classname = "Wind"; unit = "m/s" },
    )
    ∷ []

abbrev wind_events : List Event
wind_events =
    packet (1 ∷ 0 ∷ 0 ∷ 0 ∷ 0 ∷ 7 ∷ 90 ∷ 0 ∷ []) (at_second 10)
    ∷ minute (of_seconds (pos 60))
    ∷ packet (1 ∷ 0 ∷ 0 ∷ 0 ∷ 0 ∷ 9 ∷ 80 ∷ 0 ∷ []) (at_second 70)
    ∷ []

value_of-run_wind_example :
    (r : Recorder ℤ) × (recorder_of
        (run no_day (pos 0) wind_readers wind_events wind_sensors)
        "outdoor"
        "wind"
      ≡ some r)
    × ((value_of r ≡ err no_value) ⊎ (value_of r ≡ ok (pos 0)))
value_of-run_wind_example =
    value_of-run_wind no_day (pos 0) wind_readers wind_events wind_sensors "outdoor" "wind" 0 "Wind"
      "m/s" (fresh_wind (of_seconds (pos 0))) (refl, _) refl refl

abbrev gust : ℕ → ℤ → Gust ℤ
gust t x = record {
  average_at = of_seconds (pos t);
  update_at = of_seconds (pos t);
  vector = record { x = x; y = pos 0 };
}

blow-reset_example :
    All
      (IsBelow (
        blow
          (gust 1 (pos 3) ∷ gust 2 (pos 5) ∷ gust 3 (negsuc 1) ∷ [])
          (Wind.reset (of_seconds (pos 0)) (fresh_wind (of_seconds (pos 0))))))
      (gust 1 (pos 3) ∷ gust 2 (pos 5) ∷ gust 3 (negsuc 1) ∷ [])
    × ((blow
          (gust 1 (pos 3) ∷ gust 2 (pos 5) ∷ gust 3 (negsuc 1) ∷ [])
          (Wind.reset (of_seconds (pos 0)) (fresh_wind (of_seconds (pos 0))))).samples
        ≡ 2)
blow-reset_example =
    blow-reset int-IsOrdered (of_seconds (pos 0)) (fresh_wind (of_seconds (pos 0))) (gust 1 (pos 3))
      (gust 2 (pos 5) ∷ gust 3 (negsuc 1) ∷ [])
