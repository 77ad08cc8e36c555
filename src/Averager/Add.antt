-- ===== src/Averager/Add.antt =====
-- lib/Averager.cc: the statements that add the averages of a time to the database, and those that remove them.
-- A statement is the record of what snprintf writes into its text. The database, what it knows of a sensor and
-- the ids of fields are parameters; an error of a statement counts as no rows, as the processor ignores it.
pub mod Laws
use meteo.Base.{
  ℕ, ◌+◌, ◌-◌, ◌%◌, ◌==◌, Bool, true, false, List, [], ◌∷◌, Result, ok, err, ◌>>=◌, String,
  if◌then◌else◌,
}
use meteo.Base.Int.{ℤ, pos}
use meteo.Base.Text.{str_eq}
use meteo.Base.Double.{Double}
use meteo.Vector.{Libm, Vector, get_abs, get_azideg}
use meteo.Averager.{GroupInfo, group_info}

pub data Statement (D : Type 0) : Type 0 where
  delete_avg : (timekey interval sensorid : ℕ) → Statement D
  insert_value : (timekey interval sensorid fieldid : ℕ) → D → Statement D
  insert_select : (group : GroupInfo) (interval sensorid fieldid baseid : ℕ) → String → Statement D

-- A row of the query of addWind
pub record WindRow (D : Type 0) : Type 0 where
  pub x_sum : D
  pub y_sum : D
  pub wind_time : D
  pub samples : D

-- getAverages, getBase and getOperator of SensorStationInfo, and its id
pub record Target : Type 0 where
  pub name : String
  pub base : String
  pub op : String

pub record SensorInfo : Type 0 where
  pub id : ℕ
  pub averages : List Target

-- What the statements act on
pub record Database (D Db : Type 0) : Type 0 where
  pub perform : Statement D → Db → Result ℕ × Db
  pub wind_sums : GroupInfo → ℕ → Db → Result (List (WindRow D))
  pub have : ℕ → ℕ → Db → Result ℕ
  pub sensor_info : String → Result SensorInfo
  pub field_id : String → Result ℕ

abbrev pub Outcome : Type 0 → Type 0
Outcome Db = Result ℕ × Db

module _ {Db : Type 0} where
  -- QueryProcessor::perform(query) with ignoreerrors
  abbrev pub counted : Outcome Db → Outcome Db
  counted (ok rows, db) = (ok rows, db)
  counted (err _, db) = (ok 0, db)

  -- rows += the next step
  abbrev pub plus_rows : ℕ → Outcome Db → Outcome Db
  plus_rows n (ok rows, db) = (ok (n + rows), db)
  plus_rows n (err e, db) = (err e, db)

  abbrev pub and_then : Outcome Db → (Db → Outcome Db) → Outcome Db
  and_then (ok n, db) next = plus_rows n (next db)
  and_then (err e, db) next = (err e, db)

  -- A step on a value that may be missing
  abbrev pub with_value : {A : Type 0} → Result A → Db → (A → Db → Outcome Db) → Outcome Db
  with_value (ok a) db next = next a db
  with_value (err e) db next = (err e, db)

module _ {D Db : Type 0} ⦃d : Double D⦄ ⦃m : Libm D⦄ (base : Database D Db) (offset : ℤ)
    (fake : Bool) where
  -- A statement, unless `fake` is set
  abbrev pub send : Statement D → Db → Outcome Db
  send s db = if fake then (ok 0, db) else counted (base.perform s db)

  -- Averager::addSimpleValue
  unfoldable pub add_simple_value : (timekey interval sensorid targetid : ℕ) → D → Db → Outcome Db
  add_simple_value tk i sensorid targetid v db =
      send (Statement.insert_value tk i sensorid targetid v) db

  -- Averager::addGeneric
  unfoldable pub add_generic :
      (timekey interval sensorid targetid baseid : ℕ) → String → Db → Outcome Db
  add_generic tk i sensorid targetid baseid op db =
      send (Statement.insert_select (group_info tk i offset) i sensorid targetid baseid op) db

  -- Averager::addWindVector
  unfoldable pub add_wind_vector : (timekey interval sensorid : ℕ) → Vector D → Db → Outcome Db
  unfolding add_simple_value get_azideg
  add_wind_vector tk i sensorid v db = with_value (base.field_id "wind") db λ speed_id db.
      with_value (base.field_id "winddir") db λ dir_id db.
        and_then (add_simple_value tk i sensorid dir_id (get_azideg v) db)
          λ db. add_simple_value tk i sensorid speed_id (get_abs v) db

  -- The loop of addWind
  abbrev pub add_wind_rows :
      (timekey interval sensorid durationid samplesid : ℕ) → List (WindRow D) → Db → Outcome Db
  add_wind_rows tk i sensorid durationid samplesid [] db = (ok 0, db)
  add_wind_rows tk i sensorid durationid samplesid (r ∷ rows) db =
      let rest = add_wind_rows tk i sensorid durationid samplesid rows in
      let v : Vector D = record { x = d.div r.x_sum r.wind_time; y = d.div r.y_sum r.wind_time } in
      if d.lt (d.lit (pos 0) 0) r.wind_time
      then (and_then (add_wind_vector tk i sensorid v db) λ db.
          and_then (add_simple_value tk i sensorid durationid r.wind_time db)
            λ db. and_then (add_simple_value tk i sensorid samplesid r.samples db) rest)
      else rest db

  -- Averager::addWind
  unfoldable pub add_wind : (timekey interval sensorid : ℕ) → Db → Outcome Db
  unfolding add_wind_vector add_simple_value
  add_wind tk i sensorid db = with_value (base.field_id "windx") db λ windxid db.
      with_value (base.field_id "windy") db λ windyid db.
        with_value (base.field_id "duration") db λ durationid db.
          with_value (base.field_id "samples") db λ samplesid db.
            with_value (base.wind_sums (group_info tk i offset) sensorid db) db
              λ rows db. add_wind_rows tk i sensorid durationid samplesid rows db

  -- Averager::add for one field
  unfoldable pub add_field :
      (timekey interval sensorid targetid baseid : ℕ) → String → Db → Outcome Db
  unfolding add_wind add_generic
  add_field tk i sensorid targetid baseid op db =
      if str_eq op "wind"
      then add_wind tk i sensorid db
      else add_generic tk i sensorid targetid baseid op db

  -- Averager::remove, whose count the caller does not use
  unfoldable pub remove : (timekey interval sensorid : ℕ) → Db → Db
  remove tk i sensorid db = (send (Statement.delete_avg tk i sensorid) db).1

  abbrev pub add_targets : (timekey interval sensorid : ℕ) → List Target → Db → Outcome Db
  add_targets tk i sensorid [] db = (ok 0, db)
  add_targets tk i sensorid (t ∷ targets) db = with_value (base.field_id t.name) db λ targetid db.
      with_value (base.field_id t.base) db λ baseid db.
        and_then (add_field tk i sensorid targetid baseid t.op db)
          (add_targets tk i sensorid targets)

  abbrev pub removed : Bool → (timekey interval sensorid : ℕ) → Db → Db
  removed replace tk i sensorid db = if replace then remove tk i sensorid db else db

  -- Averager::add for a sensor station
  unfoldable pub add_sensor : (timekey interval : ℕ) → String → Bool → Db → Outcome Db
  unfolding add_field remove
  add_sensor tk i sensor replace db =
      with_value (base.sensor_info sensor) db
        λ si db. add_targets tk i si.id si.averages (removed replace tk i si.id db)

  abbrev pub add_sensors : (timekey interval : ℕ) → Bool → List String → Db → Outcome Db
  add_sensors tk i replace [] db = (ok 0, db)
  add_sensors tk i replace (s ∷ sensors) db =
      and_then (add_sensor tk i s replace db) (add_sensors tk i replace sensors)

  -- Averager::add for the sensors of the station
  unfoldable pub add : (timekey interval : ℕ) → Bool → List String → Db → Outcome Db
  unfolding add_sensor
  add tk i replace sensors db =
      let all = add_sensors tk i replace sensors db in if (tk % i) == 0 then all else (ok 0, db)

  -- Averager::addSum, addMax, addMin and addAvg
  unfoldable pub add_sum : (timekey interval sensorid baseid : ℕ) → Db → Outcome Db
  unfolding add_generic
  add_sum tk i sensorid baseid db = add_generic tk i sensorid baseid baseid "sum" db

  unfoldable pub add_max : (timekey interval sensorid baseid : ℕ) → Db → Outcome Db
  unfolding add_generic
  add_max tk i sensorid baseid db = add_generic tk i sensorid (baseid + 2) baseid "max" db

  unfoldable pub add_min : (timekey interval sensorid baseid : ℕ) → Db → Outcome Db
  unfolding add_generic
  add_min tk i sensorid baseid db = add_generic tk i sensorid (baseid + 1) baseid "min" db

  unfoldable pub add_avg : (timekey interval sensorid baseid : ℕ) → Db → Outcome Db
  unfolding add_generic
  add_avg tk i sensorid baseid db = add_generic tk i sensorid baseid baseid "avg" db
