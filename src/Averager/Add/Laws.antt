-- ===== src/Averager/Add/Laws.antt =====
-- What the averages of lib/Averager.cc do to the table of averages.
use meteo.Base.{
  ℕ, ◌-◌, ◌%◌, ◌==◌, ◌&&◌, ◌≡◌, refl, sym, ap, ◌∙◌, Bool, true, false, List, [], ◌∷◌, ◌++◌, Result,
  ok, err, String, if◌then◌else◌, Bool-cases, inl, inr, arith, All, All-append, append_nil,
  append_assoc,
}
use mathlib.Core.Path.{subst}
use meteo.Base.Int.{ℤ, pos}
use meteo.Base.Text.{str_eq}
use meteo.Base.Double.{Double}
use meteo.Vector.{Libm, Vector, get_abs, get_azideg}
use meteo.Averager.{GroupInfo, group_info}
use meteo.Averager.Add.{
  Statement, WindRow, Target, SensorInfo, Database, Outcome, counted, send, plus_rows, and_then,
  with_value, add_simple_value, add_generic, add_wind_vector, add_wind_rows, add_wind, add_field,
  remove, add_targets, removed, add_sensor,
}

counted_db : {Db : Type 0} (o : Outcome Db) → (counted o).1 ≡ o.1
counted_db (ok rows, db) = refl
counted_db (err e, db) = refl

plus_rows_db : {Db : Type 0} (n : ℕ) (o : Outcome Db) → (plus_rows n o).1 ≡ o.1
plus_rows_db n (ok rows, db) = refl
plus_rows_db n (err e, db) = refl

-- A row of the table avg, without its value.
pub record Key : Type 0 where
  pub timekey : ℕ
  pub interval : ℕ
  pub sensorid : ℕ
  pub fieldid : ℕ

-- The row belongs to a time, an interval and a sensor.
abbrev pub is_of : ℕ → ℕ → ℕ → Key → Bool
is_of tk i sensorid k = k.timekey == tk && (k.interval == i && k.sensorid == sensorid)

abbrev pub IsOf : ℕ → ℕ → ℕ → Key → Type 0
IsOf tk i sensorid k = is_of tk i sensorid k ≡ true

-- The rows that do not belong to them.
abbrev pub others : ℕ → ℕ → ℕ → List Key → List Key
others tk i sensorid [] = []
others tk i sensorid (k ∷ ks) =
    let rest = others tk i sensorid ks in if is_of tk i sensorid k then rest else k ∷ rest

-- What the database promises of the table: a `delete` that succeeds takes the rows of the time, the interval and
-- the sensor away, and one that fails leaves the other rows as they are; the inserts add rows of theirs, if any,
-- behind the others.
pub record IsTable {D Db : Type 0} (base : Database D Db) : Type 0 where
  pub rows : Db → List Key
  pub rows-delete :
      (tk i sensorid n : ℕ) (db : Db)
      → (base.perform (Statement.delete_avg tk i sensorid) db).0 ≡ ok n
      → rows (base.perform (Statement.delete_avg tk i sensorid) db).1
        ≡ others tk i sensorid (rows db)
  pub others-delete :
      (tk i sensorid : ℕ) (db : Db)
      → others tk i sensorid (rows (base.perform (Statement.delete_avg tk i sensorid) db).1)
        ≡ others tk i sensorid (rows db)
  pub rows-insert_value :
      (tk i sensorid fieldid : ℕ) (v : D) (db : Db)
      → (new : List Key) × (rows
            (base.perform (Statement.insert_value tk i sensorid fieldid v) db).1
          ≡ rows db ++ new)
        × All (IsOf tk i sensorid) new
  pub rows-insert_select :
      (g : GroupInfo) (i sensorid fieldid baseid : ℕ) (op : String) (db : Db)
      → (new : List Key) × (rows
            (base.perform (Statement.insert_select g i sensorid fieldid baseid op) db).1
          ≡ rows db ++ new)
        × All (IsOf g.group_key i sensorid) new

module _ {D Db : Type 0} ⦃d : Double D⦄ ⦃m : Libm D⦄ (base : Database D Db) (t : IsTable base) where
  -- The second database is the first with rows of the time, the interval and the sensor behind the others.
  abbrev pub IsExtension : ℕ → ℕ → ℕ → Db → Db → Type 0
  IsExtension tk i sensorid db db' =
      (new : List Key) × (t.rows db' ≡ t.rows db ++ new) × All (IsOf tk i sensorid) new

  unchanged : (tk i s : ℕ) (db : Db) → IsExtension tk i s db db
  unchanged tk i s db = ([], sym (append_nil (t.rows db)), tt)

  grown :
      (tk i s : ℕ) (a b c : Db)
      → IsExtension tk i s a b
      → IsExtension tk i s b c
      → IsExtension tk i s a c
  grown tk i s a b c (new, e, of_new) (more, e', of_more) = (
    new ++ more,
    e' ∙ ap (λ rows. rows ++ more) e ∙ append_assoc (t.rows a) new more,
    All-append (IsOf tk i s) new more of_new of_more,
  )

  chained :
      (tk i s : ℕ) (a : Db) (o : Outcome Db) (next : Db → Outcome Db)
      → IsExtension tk i s a o.1
      → ((b : Db) → IsExtension tk i s b (next b).1)
      → IsExtension tk i s a (and_then o next).1
  chained tk i s a (err e, db) next first later = first
  chained tk i s a (ok n, db) next first later =
      rw (plus_rows_db n (next db)) (grown tk i s a db (next db).1 first (later db))

  supplied :
      {A : Type 0} (tk i s : ℕ) (r : Result A) (db : Db) (next : A → Db → Outcome Db)
      → ((a : A) → IsExtension tk i s db (next a db).1)
      → IsExtension tk i s db (with_value r db next).1
  supplied tk i s (ok a) db next later = later a
  supplied tk i s (err e) db next later = unchanged tk i s db

  module _ (offset : ℤ) (fake : Bool) (tk i s : ℕ) (on_grid : (tk % i) ≡ 0) where
    sent :
        (statement : Statement D) (db : Db)
        → IsExtension tk i s db (base.perform statement db).1
        → IsExtension tk i s db (send base offset fake statement db).1
    sent statement db does = elim (Bool-cases fake) [
      | inl only_told ↦ rw only_told (unchanged tk i s db)
      | inr real ↦ rw (real, counted_db (base.perform statement db)) does
    ]

    simple_value :
        (f : ℕ) (v : D) (db : Db)
        → IsExtension tk i s db (add_simple_value base offset fake tk i s f v db).1
    unfolding add_simple_value
    simple_value f v db =
        sent (Statement.insert_value tk i s f v) db (t.rows-insert_value tk i s f v db)

    key_kept : tk - tk % i ≡ tk
    key_kept = omega (arith, on_grid)

    generic :
        (f b : ℕ) (op : String) (db : Db)
        → IsExtension tk i s db (add_generic base offset fake tk i s f b op db).1
    unfolding add_generic
    generic f b op db =
        let statement : Statement D = Statement.insert_select (group_info tk i offset) i s f b op in
        let (new, e, of_new) = t.rows-insert_select (group_info tk i offset) i s f b op db in
        sent statement db (new, e, subst (λ k. All (IsOf k i s) new) key_kept of_new)

    wind_vector :
        (v : Vector D) (db : Db)
        → IsExtension tk i s db (add_wind_vector base offset fake tk i s v db).1
    unfolding add_wind_vector
    wind_vector v db = supplied tk i s (base.field_id "wind") db _ λ speed_id.
        supplied tk i s (base.field_id "winddir") db _ λ dir_id.
          chained tk i s db (add_simple_value base offset fake tk i s dir_id (get_azideg v) db) _
            (simple_value dir_id (get_azideg v) db) (λ b. simple_value speed_id (get_abs v) b)

    wind_rows :
        (durationid samplesid : ℕ) (rows : List (WindRow D)) (db : Db)
        → IsExtension tk i s db
            (add_wind_rows base offset fake tk i s durationid samplesid rows db).1
    wind_rows durationid samplesid [] db = unchanged tk i s db
    wind_rows durationid samplesid (r ∷ rows) db =
        let v : Vector D = record {
          x = d.div r.x_sum r.wind_time;
          y = d.div r.y_sum r.wind_time;
        } in
        elim (Bool-cases (d.lt (d.lit (pos 0) 0) r.wind_time)) [
          | inr calm ↦ rw calm (wind_rows durationid samplesid rows db)
          | inl windy ↦ rw windy (
              chained tk i s db (add_wind_vector base offset fake tk i s v db) _ (wind_vector v db)
                (λ b.
                  chained tk i s b
                    (add_simple_value base offset fake tk i s durationid r.wind_time b) _
                    (simple_value durationid r.wind_time b)
                    (λ c.
                      chained tk i s c
                        (add_simple_value base offset fake tk i s samplesid r.samples c) _
                        (simple_value samplesid r.samples c)
                        (wind_rows durationid samplesid rows))))
        ]

    field :
        (f b : ℕ) (op : String) (db : Db)
        → IsExtension tk i s db (add_field base offset fake tk i s f b op db).1
    unfolding add_field add_wind
    field f b op db = elim (Bool-cases (str_eq op "wind")) [
      | inr plain ↦ rw plain (generic f b op db)
      | inl wind ↦ rw wind (
          supplied tk i s (base.field_id "windx") db _ λ _.
            supplied tk i s (base.field_id "windy") db _ λ _.
              supplied tk i s (base.field_id "duration") db _ λ durationid.
                supplied tk i s (base.field_id "samples") db _ λ samplesid.
                  supplied tk i s (base.wind_sums (group_info tk i offset) s db) db _
                    λ rows. wind_rows durationid samplesid rows db)
    ]

    targets :
        (ts : List Target) (db : Db)
        → IsExtension tk i s db (add_targets base offset fake tk i s ts db).1
    targets [] db = unchanged tk i s db
    targets (x ∷ ts) db = supplied tk i s (base.field_id x.name) db _ λ f.
        supplied tk i s (base.field_id x.base) db _ λ b.
          chained tk i s db (add_field base offset fake tk i s f b x.op db) _ (field f b x.op db)
            (targets ts)

-- The rows behind what the `delete` left.
add_sensor-extends :
    {D Db : Type 0} ⦃d : Double D⦄ ⦃m : Libm D⦄ (base : Database D Db) (t : IsTable base)
    (offset : ℤ) (tk i : ℕ) (sensor : String) (si : SensorInfo) (db : Db)
    → (tk % i) ≡ 0
    → base.sensor_info sensor ≡ ok si
    → (new : List Key) × (t.rows (add_sensor base offset false tk i sensor true db).1
        ≡ t.rows (base.perform (Statement.delete_avg tk i si.id) db).1 ++ new)
      × All (IsOf tk i si.id) new
unfolding add_sensor remove
add_sensor-extends base t offset tk i sensor si db on_grid info =
    let start = removed base offset false true tk i si.id db in
    let same = counted_db (base.perform (Statement.delete_avg tk i si.id) db) in
    let (new, e, of_new) = targets base t offset false tk i si.id on_grid si.averages start in
    (
      new,
      ap
            (λ r.
              t.rows
                (with_value r db (λ si db.
                  add_targets base offset false tk i si.id si.averages
                    (removed base offset false true tk i si.id db))).1)
            info
          ∙ e
          ∙ ap (λ x. t.rows x ++ new) same,
      of_new,
    )

-- The averages of a sensor, added with `replace` at a time that the interval divides, where the database performs the
-- `delete`: whether the averages succeed or end with an exception, the table keeps the rows that do not belong to
-- this time, interval and sensor, and all others in it are new ones that do.
pub add_sensor-others :
    {D Db : Type 0} ⦃d : Double D⦄ ⦃m : Libm D⦄ (base : Database D Db) (t : IsTable base)
    (offset : ℤ) (tk i : ℕ) (sensor : String) (si : SensorInfo) (n : ℕ) (db : Db)
    → (tk % i) ≡ 0
    → base.sensor_info sensor ≡ ok si
    → (base.perform (Statement.delete_avg tk i si.id) db).0 ≡ ok n
    → (new : List Key) × (t.rows (add_sensor base offset false tk i sensor true db).1
        ≡ others tk i si.id (t.rows db) ++ new)
      × All (IsOf tk i si.id) new
add_sensor-others base t offset tk i sensor si n db on_grid info performed =
    let (new, e, of_new) = add_sensor-extends base t offset tk i sensor si db on_grid info in
    (new, e ∙ ap (λ x. x ++ new) (t.rows-delete tk i si.id n db performed), of_new)

others-append :
    (tk i s : ℕ) (kept new : List Key)
    → All (IsOf tk i s) new
    → others tk i s (kept ++ new) ≡ others tk i s kept
others-append tk i s [] [] of_new = refl
others-append tk i s [] (k ∷ new) (e, of_new) = rw e (others-append tk i s [] new of_new)
others-append tk i s (k ∷ kept) new of_new = elim (Bool-cases (is_of tk i s k)) [
  | inl e ↦ rw e (others-append tk i s kept new of_new)
  | inr e ↦ rw e (ap (◌∷◌ k) (others-append tk i s kept new of_new))
]

-- The averages of a sensor, added with `replace` at a time that the interval divides: whatever becomes of the
-- `delete` and of the averages, the rows that do not belong to this time, interval and sensor are those that were
-- there before, in their order.
pub add_sensor-kept :
    {D Db : Type 0} ⦃d : Double D⦄ ⦃m : Libm D⦄ (base : Database D Db) (t : IsTable base)
    (offset : ℤ) (tk i : ℕ) (sensor : String) (si : SensorInfo) (db : Db)
    → (tk % i) ≡ 0
    → base.sensor_info sensor ≡ ok si
    → others tk i si.id (t.rows (add_sensor base offset false tk i sensor true db).1)
      ≡ others tk i si.id (t.rows db)
add_sensor-kept base t offset tk i sensor si db on_grid info =
    let (new, e, of_new) = add_sensor-extends base t offset tk i sensor si db on_grid info in
    ap (others tk i si.id) e
    ∙ others-append tk i si.id (t.rows (base.perform (Statement.delete_avg tk i si.id) db).1) new
        of_new
    ∙ t.others-delete tk i si.id db
