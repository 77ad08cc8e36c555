-- ===== src/Tests/Queries.antt =====
-- A query for two fields, and the rows that the database has for them.
use meteo.Base.{
  ℕ, ◌≡◌, refl, [], ◌∷◌, List, some, none, Result, ok, err, if◌then◌else◌, query_corrupt, arith,
  String,
}
use meteo.Base.Int.{ℤ, pos}
use meteo.Base.Text.{str_eq}
use meteo.Base.Dict.{find, Dict}
use meteo.Base.Double.{int_double}
use meteo.Tdata.{Tdata}
use meteo.Tdata
use meteo.Query.{FieldId, ids_of, Query, SqlRow, add_select, perform}
use meteo.Query.Laws.{IsConsistent, add_select-IsConsistent, extended}
use meteo.Query.Perform.{perform_lem, latest}

abbrev inside : FieldId
inside = record { stationid = 1; sensorid = 2; mfieldid = 0 }

abbrev outside : FieldId
outside = record { stationid = 1; sensorid = 2; mfieldid = 1 }

abbrev field_id : String → Result FieldId
field_id f =
    if str_eq f "roof.temperature_inside"
    then ok inside
    else if str_eq f "roof.temperature"
    then ok outside
    else err query_corrupt

abbrev id_of : ℕ → ℕ → Result FieldId
id_of s m = ok record { stationid = 1; sensorid = s; mfieldid = m }

abbrev nothing_selected : Query
nothing_selected = record { select = []; idmap = []; start = 600; end = 1200; interval = 300 }

nothing_selected-IsConsistent : IsConsistent field_id nothing_selected
nothing_selected-IsConsistent =
    (λ n f e. absurd (ground (arith, e)), λ id n e. absurd (ground (arith, e)))

add_select-IsConsistent_example :
    (q' : Query) × (add_select field_id "in" "roof.temperature_inside" nothing_selected ≡ ok q')
    × IsConsistent field_id q'
    × (find q'.select "in" ≡ some "roof.temperature_inside")
add_select-IsConsistent_example =
    add_select-IsConsistent field_id "in" "roof.temperature_inside" inside nothing_selected
      nothing_selected-IsConsistent refl refl refl

abbrev two_selected : Query
two_selected =
    extended field_id "out" "roof.temperature" outside
      (extended field_id "in" "roof.temperature_inside" inside nothing_selected)

abbrev row : ℕ → ℕ → ℕ → SqlRow ℤ
row t m v = record { timekey = t; sensor = 2; mfield = m; value = pos v }

abbrev rows : List FieldId → List (SqlRow ℤ)
rows _ = row 600 0 21 ∷ row 600 1 8 ∷ row 900 1 9 ∷ row 600 0 22 ∷ []

perform_lem_example :
    (ids : List FieldId) × (ids_of field_id two_selected.select ≡ ok ids)
    × (result : Dict (Tdata ℤ)) × (perform id_of field_id two_selected rows ≡ ok result)
    × ((n f : String)
        → find two_selected.select n ≡ some f
        → (a : Tdata ℤ) × (find result n ≡ some a)
          × ((t : ℕ) → Tdata.find a.entries t ≡ latest id_of two_selected n (rows ids) t none))
perform_lem_example =
    perform_lem id_of two_selected field_id rows "in" "roof.temperature_inside" refl
      ((inside, refl), ((outside, refl), tt))
      (λ ids. (("in", refl), (("out", refl), (("out", refl), (("in", refl), tt)))))

values_of : latest id_of two_selected "in" (rows []) 600 none ≡ some (pos 22)
values_of = refl
