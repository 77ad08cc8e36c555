-- ===== src/Tests/Averages.antt =====
-- The averages of one sensor in a table, and the rounds of the daemon.
use meteo.Base.{
  ℕ, ◌%◌, ◌≡◌, refl, true, false, [], ◌∷◌, ◌++◌, List, All, Result, ok, err, arith, ap, Bool-cases,
  inl, inr, query_corrupt,
}
use meteo.Base.Int.{ℤ, pos, negsuc}
use meteo.Base.Double.{int_double}
use meteo.Vector.{Libm}
use meteo.Averager.Add.{Statement, SensorInfo, Database, add_sensor}
use meteo.Averager.Add.Laws.{Key, IsOf, others, IsTable, is_of, add_sensor-others, add_sensor-kept}
use meteo.Averager.Daemon.{calls, round_key, is_valid, range_keys}
use meteo.Averager.Daemon.Laws.{is_called, round-once, range_keys-All}

instance abbrev plain_libm : Libm ℤ
plain_libm = record { sqrt = λ z. z; sin = λ z. z; cos = λ z. z; atan2 = λ y x. y }

abbrev row : ℕ → ℕ → ℕ → ℕ → Key
row tk i s f = record { timekey = tk; interval = i; sensorid = s; fieldid = f }

abbrev perform : Statement ℤ → List Key → Result ℕ × List Key
perform (Statement.delete_avg tk i s) table = (ok 0, others tk i s table)
perform (Statement.insert_value tk i s f v) table = (ok 1, table ++ (row tk i s f ∷ []))
perform (Statement.insert_select g i s f b op) table = (ok 1, table ++ (row g.group_key i s f ∷ []))

abbrev outside : SensorInfo
outside = record {
  id = 2;
  averages =
      (record { name = "temperature"; base = "temperature"; op = "avg" })
      ∷ (record { name = "wind"; base = "wind"; op = "wind" })
      ∷ [];
}

abbrev one_sensor : Database ℤ (List Key)
one_sensor = record {
  perform = perform;
  wind_sums = λ g s table.
      ok (record { x_sum = pos 1; y_sum = pos 2; wind_time = pos 3; samples = pos 4 } ∷ []);
  have = λ tk i table. ok 0;
  sensor_info = λ name. ok outside;
  field_id = λ name. ok 7;
}

same_key : (tk i s f : ℕ) → IsOf tk i s (row tk i s f)
same_key tk i s f = ground arith

others-others :
    (tk i s : ℕ) (table : List Key) → others tk i s (others tk i s table) ≡ others tk i s table
others-others tk i s [] = refl
others-others tk i s (k ∷ table) = elim (Bool-cases (is_of tk i s k)) [
  | inl e ↦ rw e (others-others tk i s table)
  | inr e ↦ rw (e, e) (ap (◌∷◌ k) (others-others tk i s table))
]

one_sensor-IsTable : IsTable one_sensor
one_sensor-IsTable = record {
  rows = λ table. table;
  rows-delete = λ tk i s n table e. refl;
  others-delete = λ tk i s table. others-others tk i s table;
  rows-insert_value = λ tk i s f v table. (row tk i s f ∷ [], refl, (same_key tk i s f, tt));
  rows-insert_select =
      λ g i s f b op table. (row g.group_key i s f ∷ [], refl, (same_key g.group_key i s f, tt));
}

abbrev old_rows : List Key
old_rows = row 600 300 2 7 ∷ row 600 300 1 7 ∷ []

add_sensor-others_example :
    (new : List Key) × (one_sensor-IsTable.rows
        (add_sensor one_sensor (pos 0) false 600 300 "outside" true old_rows).1
      ≡ others 600 300 2 (one_sensor-IsTable.rows old_rows) ++ new)
    × All (IsOf 600 300 2) new
add_sensor-others_example =
    add_sensor-others one_sensor one_sensor-IsTable (pos 0) 600 300 "outside" outside 0 old_rows
      refl refl refl

-- A database that fails to delete, and so keeps the row of the sensor.
abbrev stuck_perform : Statement ℤ → List Key → Result ℕ × List Key
stuck_perform (Statement.delete_avg tk i s) table = (err query_corrupt, table)
stuck_perform (Statement.insert_value tk i s f v) table = (ok 1, table ++ (row tk i s f ∷ []))
stuck_perform (Statement.insert_select g i s f b op) table =
    (ok 1, table ++ (row g.group_key i s f ∷ []))

abbrev stuck_sensor : Database ℤ (List Key)
stuck_sensor = record one_sensor { perform = stuck_perform }

stuck_sensor-IsTable : IsTable stuck_sensor
stuck_sensor-IsTable = record {
  rows = λ table. table;
  rows-delete = λ tk i s n table e. absurd (ground (arith, e));
  others-delete = λ tk i s table. refl;
  rows-insert_value = λ tk i s f v table. (row tk i s f ∷ [], refl, (same_key tk i s f, tt));
  rows-insert_select =
      λ g i s f b op table. (row g.group_key i s f ∷ [], refl, (same_key g.group_key i s f, tt));
}

add_sensor-kept_example :
    others 600 300 2 (
      stuck_sensor-IsTable.rows
        (add_sensor stuck_sensor (pos 0) false 600 300 "outside" true old_rows).1)
    ≡ others 600 300 2 (stuck_sensor-IsTable.rows old_rows)
add_sensor-kept_example =
    add_sensor-kept stuck_sensor stuck_sensor-IsTable (pos 0) 600 300 "outside" outside old_rows
      refl refl

abbrev delay : ℕ → ℕ
delay n = 5

round-once_example :
    (n : ℕ) × (is_called
        (record { timekey = 93600; interval = 7200 })
        (calls (round_key (negsuc 3599) delay 100000 n))
      ≡ true)
    × (is_valid (record { timekey = 93600; interval = 7200 }) ≡ true)
    × ((n' : ℕ)
        → is_called
            (record { timekey = 93600; interval = 7200 })
            (calls (round_key (negsuc 3599) delay 100000 n'))
          ≡ true
        → n' ≡ n)
round-once_example =
    round-once (negsuc 3599) delay 100000 93600 7200 (λ k. omega arith) (omega arith) refl refl refl
      (omega arith)

range_keys-All_example : All (λ key. key % 300 ≡ 0) (range_keys (pos 3600) 300 100000 100900)
range_keys-All_example =
    range_keys-All (pos 3600) 300 100000 100900 (omega arith) (omega arith) (omega arith)
