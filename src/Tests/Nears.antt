-- ===== src/Tests/Nears.antt =====
-- A record of three rows: a temperature, the direction of the wind and its speed.
use meteo.Base.{
  ℕ, ◌==◌, ◌≡◌, refl, true, false, List, [], ◌∷◌, none, Result, ok, err, String, if◌then◌else◌,
}
use meteo.Base.Int.{ℤ, pos}
use meteo.Base.Double.{int_double}
use meteo.Value.Quantity.{new_basic_value}
use meteo.Tdata.Maps.{or_else}
use meteo.Near.{Datarecord, FieldRow, near_query, record_of, near_record, get_field, found_field}
use meteo.Near.Laws.{field_value, last_speed, last_direction, wind_entry, get_field-record_of}
use meteo.Tests.Stations.{int_libm}

abbrev fq_name : ℕ → ℕ → Result String
fq_name sensorid mfieldid = ok (if sensorid == 1 then "a.temperature" else "a.wind")

abbrev rows : List (FieldRow ℤ)
rows =
    (record {
      amount = pos 21;
      fieldname = "temperature";
      mfieldid = 4;
      classname = "TemperatureValue";
      unit = "C";
      sensorid = 1;
    })
    ∷ (record {
      amount = pos 180;
      fieldname = "winddir";
      mfieldid = 6;
      classname = "BasicValue";
      unit = "deg";
      sensorid = 2;
    })
    ∷ (record {
      amount = pos 3;
      fieldname = "wind";
      mfieldid = 5;
      classname = "Wind";
      unit = "m/s";
      sensorid = 2;
    })
    ∷ []

abbrev made : Result (Datarecord ℤ)
made = record_of (pos 0) fq_name (pos 0) (pos 600) rows

abbrev record_or : Result (Datarecord ℤ) → Datarecord ℤ
record_or (ok r) = r
record_or (err e) = record { data_map = []; timekey = pos 0 }

made_ok : made ≡ ok (record_or made)
unfolding record_of new_basic_value
made_ok = refl

get_field-record_of_example :
    get_field "a.wind" (record_or made)
    ≡ found_field (
        or_else (field_value (pos 0) fq_name rows none "a.wind") (
          wind_entry
            (pos 0)
            fq_name
            (last_speed (pos 0) fq_name rows none)
            (last_direction (pos 0) fq_name rows (pos 0))
            "a.wind"))
get_field-record_of_example =
    get_field-record_of (pos 0) fq_name (pos 0) (pos 600) rows (record_or made) "a.wind" made_ok

-- No row in the window is a row with no time, and the record is that of the time 0.
near_record_run :
    near_record
      (pos 0)
      fq_name
      (λ q ids. ok (none ∷ []))
      (λ t ids. ok [])
      (pos 0)
      false
      (pos 7200)
      (ok (1 ∷ []))
      true
      (pos 3600)
    ≡ ok (record { data_map = []; timekey = pos 0 })
unfolding near_record near_query record_of
near_record_run = refl
