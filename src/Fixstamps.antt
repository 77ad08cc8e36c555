-- ===== src/Fixstamps.antt =====
-- support/meteofixtimestamps.c: the copy of a table with its local times made universal. The database and the
-- functions of the C library are parameters, and so is the printed form of a time. A text is the list of its
-- characters, and an `insert` is its table, its columns and the texts of its values; the size of the buffer
-- that it is printed to is left out.
pub mod Rows
pub mod Laws
use meteo.Base.{
  ℕ, zero, suc, ◌+◌, ◌-◌, ◌*◌, ◌==◌, ◌&&◌, ◌||◌, ltb, leb, Bool, true, false, List, [], ◌∷◌, ◌++◌,
  map, Option, none, some, Result, ok, err, ◌>>=◌, if◌then◌else◌, length, take, drop, undefined,
  unsupported_field, inconsistent_times,
}
use meteo.Base.Int.{ℤ, pos, ◌-ℤ◌}
use meteo.Queue.{Text}
use meteo.Names.{same_name}

-- The fields of `struct tm` that local2time sets, less those that it sets to zero
pub record LocalTime : Type 0 where
  pub minutes : ℕ
  pub hour : ℕ
  pub mday : ℕ
  pub mon : ℤ
  pub year : ℤ

-- atoi of a text without blanks and sign
abbrev pub atoi_from : ℕ → Text → ℕ
atoi_from n [] = n
atoi_from n (c ∷ cs) =
    let rest = atoi_from (n * 10 + (c - 48)) cs in if leb 48 c && leb c 57 then rest else n

abbrev pub atoi_at : ℕ → ℕ → Text → ℕ
atoi_at from n s = atoi_from 0 (take n (drop from s))

-- local2time: the assertion, and the parts of the text for mktime
unfoldable pub local_to_time : (LocalTime → ℤ) → Text → Result ℤ
local_to_time mktime s =
    if length s == 14
    then ok (
        mktime (record {
          minutes = atoi_at 10 2 s;
          hour = atoi_at 8 2 s;
          mday = atoi_at 6 2 s;
          mon = pos (atoi_at 4 2 s) -ℤ pos 1;
          year = pos (atoi_at 0 4 s) -ℤ pos 1900;
        }))
    else err undefined

-- The cases of the `switch`: numbers and dates, TIMESTAMP, the two kinds of strings, the kinds that are refused,
-- and all others
pub data FieldType : Type 0 where
  literal timestamp string refused other : FieldType

pub record Column : Type 0 where
  pub name : Text
  pub field_type : FieldType

pub record Insert : Type 0 where
  pub table : Text
  pub columns : List Text
  pub values : List Text

-- "timekey" and "NULL"
abbrev pub timekey_name : Text
timekey_name = 116 ∷ 105 ∷ 109 ∷ 101 ∷ 107 ∷ 101 ∷ 121 ∷ []

abbrev pub null_text : Text
null_text = 78 ∷ 85 ∷ 76 ∷ 76 ∷ []

-- A row of MYSQL_ROW
abbrev pub RowCells : Type 0
RowCells = List (Option Text)

-- What the database answers about the old table: the number of its rows, the first and the last time, which
-- are NULL for an empty table, and the rows from one time stamp to another
pub record OldTable : Type 0 where
  pub count : Result ℕ
  pub limits : Result (Option ℕ × Option ℕ)
  pub select : ℕ → ℕ → Result (List Column × List RowCells)

module _ (mktime : LocalTime → ℤ) (printed : ℤ → Text) (escape : Text → Text) where
  -- The buffer of an escaped string has 128 characters.
  abbrev pub quoted : Text → Result Text
  quoted s = if ltb (length s) 128 then ok (39 ∷ (s ++ (39 ∷ []))) else err undefined

  abbrev pub timestamp_text : Text → Text → Result Text
  timestamp_text name v =
      if same_name name timekey_name then (local_to_time mktime v >>= λ t. ok (printed t)) else ok v

  abbrev pub typed_text : FieldType → Text → Text → Result Text
  typed_text FieldType.literal name v = ok v
  typed_text FieldType.timestamp name v = timestamp_text name v
  typed_text FieldType.string name v = quoted (escape v)
  typed_text FieldType.refused name v = err unsupported_field
  typed_text FieldType.other name v = ok []

  abbrev pub value_text : Column → Option Text → Result Text
  value_text c none = ok null_text
  value_text c (some v) = typed_text c.field_type c.name v

  -- The values of a row; each has as many cells as there are columns.
  abbrev pub value_texts : List Column → RowCells → Result (List Text)
  value_texts [] row = ok []
  value_texts (c ∷ cs) [] = err undefined
  value_texts (c ∷ cs) (v ∷ row) = value_text c v >>= λ x. value_texts cs row >>= λ xs. ok (x ∷ xs)

  unfoldable pub insert_of : Text → List Column → RowCells → Result Insert
  unfolding local_to_time
  insert_of table cs row = value_texts cs row >>= λ xs.
      ok record { table = table; columns = map (λ c. c.name) cs; values = xs }

  module _ {Db : Type 0} (query : Insert → Db → Bool × Db) where
    -- An `insert` that fails is reported, and not counted.
    abbrev pub tallied : ℕ → Bool × Db → (ℕ → Db → Result ℕ × Db) → Result ℕ × Db
    tallied rows (true, db) next = next (suc rows) db
    tallied rows (false, db) next = next rows db

    abbrev pub inserted : ℕ → Result Insert → Db → (ℕ → Db → Result ℕ × Db) → Result ℕ × Db
    inserted rows (err e) db next = (err e, db)
    inserted rows (ok q) db next = tallied rows (query q db) next

    -- copy_rows
    abbrev pub copy_rows : Text → List Column → List RowCells → ℕ → Db → Result ℕ × Db
    copy_rows table cs [] rows db = (ok rows, db)
    copy_rows table cs (r ∷ rs) rows db =
        inserted rows (insert_of table cs r) db (copy_rows table cs rs)

    module _ (stamp : ℕ → ℕ) where
      abbrev pub and_copied : ℕ → Result ℕ × Db → (ℕ → Db → Result ℕ × Db) → Result ℕ × Db
      and_copied total (err e, db) next = (err e, db)
      and_copied total (ok rows, db) next = next (total + rows) db

      abbrev pub copy_day : Text → Result (List Column × List RowCells) → Db → Result ℕ × Db
      copy_day table (err e) db = (err e, db)
      copy_day table (ok (cs, rows)) db = copy_rows table cs rows 0 db

      -- `for (t = starttime; t < endtime;)`, on fuel
      abbrev pub copy_days : Text → OldTable → ℕ → ℕ → ℕ → ℕ → Db → Result ℕ × Db
      copy_days table old zero t endtime total db = (ok total, db)
      copy_days table old (suc n) t endtime total db =
          let day = copy_day table (old.select (stamp t) (stamp (t + 86400))) db in
          let rest = and_copied total day (copy_days table old n (t + 86400) endtime) in
          if ltb t endtime then rest else (ok total, db)

      abbrev pub checked_days : Text → OldTable → ℕ → ℕ → Db → Result ℕ × Db
      checked_days table old starttime endtime db =
          let copied = copy_days table old (endtime - starttime) starttime endtime 0 db in
          if starttime == 0 || endtime == 0 || ltb endtime starttime
          then (err inconsistent_times, db)
          else copied

      abbrev pub from_limits : Text → OldTable → Result (Option ℕ × Option ℕ) → Db → Result ℕ × Db
      from_limits table old (err e) db = (err e, db)
      from_limits table old (ok (some starttime, some endtime)) db =
          checked_days table old starttime endtime db
      from_limits table old (ok (some starttime, none)) db = (err undefined, db)
      from_limits table old (ok (none, endtime)) db = (err undefined, db)

      abbrev pub after_count : Text → OldTable → Result ℕ → Db → Result ℕ × Db
      after_count table old (err e) db = (err e, db)
      after_count table old (ok _) db = from_limits table old old.limits db

      -- copy_table
      unfoldable pub copy_table : Text → OldTable → Db → Result ℕ × Db
      unfolding insert_of
      copy_table table old db = after_count table old old.count db

      -- `main`, which does not look at what the two tables return
      unfoldable pub fix_timestamps : Text → OldTable → Text → OldTable → Db → Db
      unfolding copy_table
      fix_timestamps stationdata old_data averages old_averages db =
          (copy_table averages old_averages (copy_table stationdata old_data db).1).1
