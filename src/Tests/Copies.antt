-- ===== src/Tests/Copies.antt =====
-- The copy of a table with two rows, of two midnights.
use meteo.Base.{ℕ, ◌≡◌, refl, true, Bool, List, [], ◌∷◌, ◌++◌, some, ok, arith, ◌+◌, ◌*◌}
use meteo.Base.Int.{ℤ, pos}
use meteo.Queue.{Text}
use meteo.Fixstamps.{
  LocalTime, Column, FieldType, Insert, OldTable, timekey_name, local_to_time, insert_of,
  copy_table,
}
use meteo.Fixstamps.Rows.{Rows, chosen, number_between, days}
use meteo.Fixstamps.Laws.{IsCopied, copy_table_lem}

-- Integers stand in for the times of the C library.
abbrev mktime : LocalTime → ℤ
mktime t = pos (t.mday * 24 + t.hour)

abbrev printed : ℤ → Text
printed (pos n) = n ∷ []
printed _ = []

abbrev same_text : Text → Text
same_text s = s

abbrev taken : Insert → List Insert → Bool × List Insert
taken q db = (true, db ++ (q ∷ []))

abbrev columns : List Column
columns =
    (record { name = timekey_name; field_type = FieldType.timestamp })
    ∷ (record { name = 118 ∷ []; field_type = FieldType.literal })
    ∷ []

-- 1970-01-02 00:00:00
abbrev second_day : Text
second_day = 49 ∷ 57 ∷ 55 ∷ 48 ∷ 48 ∷ 49 ∷ 48 ∷ 50 ∷ 48 ∷ 48 ∷ 48 ∷ 48 ∷ 48 ∷ 48 ∷ []

-- 1970-01-03 00:00:00
abbrev third_day : Text
third_day = 49 ∷ 57 ∷ 55 ∷ 48 ∷ 48 ∷ 49 ∷ 48 ∷ 51 ∷ 48 ∷ 48 ∷ 48 ∷ 48 ∷ 48 ∷ 48 ∷ []

abbrev rows : Rows
rows =
    (86400, some second_day ∷ some (49 ∷ []) ∷ [])
    ∷ (172800, some third_day ∷ some (50 ∷ []) ∷ [])
    ∷ []

abbrev old : OldTable
old = record {
  count = ok 2;
  limits = ok (some 86400, some 172800);
  select = λ a b. ok (columns, chosen a b rows);
}

abbrev table : Text
table = 116 ∷ []

abbrev insert_at : ℕ → ℕ → Insert
insert_at time value = record {
  table = table;
  columns = timekey_name ∷ (118 ∷ []) ∷ [];
  values = (time ∷ []) ∷ (value ∷ []) ∷ [];
}

second_day-IsCopied :
    IsCopied mktime printed same_text taken table columns (some second_day ∷ some (49 ∷ []) ∷ [])
unfolding insert_of local_to_time
second_day-IsCopied = (insert_at 48 49, refl)

third_day-IsCopied :
    IsCopied mktime printed same_text taken table columns (some third_day ∷ some (50 ∷ []) ∷ [])
unfolding insert_of local_to_time
third_day-IsCopied = (insert_at 72 50, refl)

copy_table_lem_example :
    (copy_table mktime printed same_text taken (λ t. t) table old []).0
    ≡ ok (number_between rows 86400 (86400 + days 86400 172800 * 86400))
copy_table_lem_example =
    copy_table_lem mktime printed same_text taken table columns (λ t. t) old rows 86400 172800 2 []
      (omega arith) (omega arith) refl refl (λ q db. refl)
      (second_day-IsCopied, (third_day-IsCopied, tt)) (λ a b. refl) (λ t. omega arith)

-- The row of the last time stays behind.
copy_table_run :
    (copy_table mktime printed same_text taken (λ t. t) table old []) ≡ (ok 1, insert_at 48 49 ∷ [])
unfolding copy_table insert_of local_to_time
copy_table_run = refl
