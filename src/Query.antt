-- ===== src/Query.antt =====
-- lib/Query.cc and the `perform` of lib/QueryProcessor.cc: a query for named fields, and the rows of the
-- database sorted into one set of data for each name. `field_id` and `id_of` are FQField::getFieldid, of a
-- name and of two numbers; the rows are those that the MySQL client library fetches.
pub mod Laws
pub mod Perform
use meteo.Base.{
  ℕ, ◌-◌, ◌%◌, Bool, true, false, ◌&&◌, ◌==◌, List, [], ◌∷◌, Option, none, some, Result, ok, err,
  ◌>>=◌, String, if◌then◌else◌, duplicate_name, duplicate_id, no_fields, query_corrupt,
}
use meteo.Base.Text.{str_eq}
use meteo.Base.Dict.{Dict, find, insert, each}
use meteo.Base.Double.{Double}
use meteo.Sensor.{before}
use meteo.Tdata.{Tdata, of_range}
use meteo.Tdata

pub record FieldId : Type 0 where
  pub stationid : ℕ
  pub sensorid : ℕ
  pub mfieldid : ℕ

abbrev pub same_id : FieldId → FieldId → Bool
same_id a b = a.stationid == b.stationid && (a.sensorid == b.sensorid && a.mfieldid == b.mfieldid)

-- `imap_t`, of which only `find` and `insert` are used
abbrev pub IdMap : Type 0
IdMap = List (FieldId × String)

abbrev pub name_of : IdMap → FieldId → Option String
name_of [] id = none
name_of ((k, n) ∷ m) id = let rest = name_of m id in if same_id k id then some n else rest

pub record Query : Type 0 where
  pub select : Dict String
  pub idmap : IdMap
  pub start : ℕ
  pub end : ℕ
  pub interval : ℕ

-- Query(int, time_t, time_t, int), less the offset
unfoldable pub new_query : ℕ → ℕ → ℕ → Query
new_query i s e = record {
  select = [];
  idmap = [];
  start = s - s % i;
  end = e - e % i;
  interval = i;
}

-- Query::addSelect: where neither the name nor the id is there
abbrev pub add_id : String → String → FieldId → Option String → Query → Result Query
add_id n fieldname id (some _) q = err duplicate_id
add_id n fieldname id none q =
    ok record q { select = insert before n fieldname q.select; idmap = (id, n) ∷ q.idmap }

abbrev pub add_name :
    (String → Result FieldId) → String → String → Option String → Query → Result Query
add_name field_id n fieldname (some _) q = err duplicate_name
add_name field_id n fieldname none q =
    field_id fieldname >>= λ id. add_id n fieldname id (name_of q.idmap id) q

unfoldable pub add_select : (String → Result FieldId) → String → String → Query → Result Query
add_select field_id n fieldname q = add_name field_id n fieldname (find q.select n) q

-- A row of the result set: `atoi` and `atof` have been applied.
pub record SqlRow (D : Type 0) : Type 0 where
  pub timekey : ℕ
  pub sensor : ℕ
  pub mfield : ℕ
  pub value : D

abbrev pub named : Option String → Result String
named none = err query_corrupt
named (some n) = ok n

-- Query::getQuery, as the ids that its clause asks for
abbrev pub ids_of : (String → Result FieldId) → Dict String → Result (List FieldId)
ids_of field_id [] = ok []
ids_of field_id ((_, f) ∷ select) =
    field_id f >>= λ id. ids_of field_id select >>= λ ids. ok (id ∷ ids)

abbrev pub any_field : {A : Type 0} → Dict String → Result A → Result A
any_field [] result = err no_fields
any_field (_ ∷ _) result = result

unfoldable pub get_query : (String → Result FieldId) → Query → Result (List FieldId)
get_query field_id q = any_field q.select (ids_of field_id q.select)

module _ {D : Type 0} ⦃d : Double D⦄ (id_of : ℕ → ℕ → Result FieldId) where
  -- result.data before the rows: an empty set of data for each name
  abbrev pub prepare : Query → Dict String → Dict (Tdata D) → Dict (Tdata D)
  prepare q [] result = result
  prepare q ((n, _) ∷ select) result =
      prepare q select (insert before n (of_range q.interval q.start q.end) result)

  abbrev pub set_at : ℕ → D → Tdata D → Tdata D
  set_at t v a = record a { entries = Tdata.insert t v a.entries }

  -- result.data[name][timekey] = value; each name has its entry by then
  abbrev pub store : String → ℕ → D → Dict (Tdata D) → Dict (Tdata D)
  store n t v result = each (λ k a. if str_eq k n then set_at t v a else a) result

  -- The name that a row belongs to.
  abbrev pub owner : IdMap → SqlRow D → Result String
  owner idmap row = id_of row.sensor row.mfield >>= λ id. named (name_of idmap id)

  -- The loop over the rows, which ends with the first that throws.
  abbrev pub store_row :
      Result String
      → SqlRow D
      → (Dict (Tdata D) → Result (Dict (Tdata D)))
      → Dict (Tdata D)
      → Result (Dict (Tdata D))
  store_row (err e) row next result = err e
  store_row (ok n) row next result = next (store n row.timekey row.value result)

  abbrev pub store_rows : IdMap → List (SqlRow D) → Dict (Tdata D) → Result (Dict (Tdata D))
  store_rows idmap [] result = ok result
  store_rows idmap (row ∷ rows) result =
      store_row (owner idmap row) row (store_rows idmap rows) result

  -- QueryProcessor_internal::perform, on a query result that is empty; `rows` is the database's answer.
  unfoldable pub perform :
      (String → Result FieldId) → Query → (List FieldId → List (SqlRow D)) → Result (Dict (Tdata D))
  perform field_id q rows =
      get_query field_id q >>= λ ids. store_rows q.idmap (rows ids) (prepare q q.select [])
