-- ===== src/Near.antt =====
-- lib/Datarecord.cc and the nearRecord of lib/QueryProcessor.cc. The answers of the database and the lookups of
-- names are parameters, and the rows of the database come with their numbers read. XML and plain text are left
-- out. As in Value/Quantity, `azi` is what the constructor of a wind leaves unset.
pub mod Rows
pub mod Laws
use meteo.Base.{
  ℕ, Bool, true, false, List, [], ◌∷◌, Option, none, some, Result, ok, err, ◌>>=◌, if◌then◌else◌,
  String, field_exists, field_not_found, no_timekey, undefined,
}
use meteo.Base.Text.{str_eq}
use meteo.Base.Dict.{Dict, find, place}
use meteo.Base.Int.{ℤ, pos, ◌+ℤ◌, ◌-ℤ◌}
use meteo.Base.Double.{Double}
use meteo.Vector.{Libm, polar}
use meteo.Value.Quantity.{Quantity, new_basic_value, of_vector}
use meteo.Sensor.{before}

pub record Datarecord (D : Type 0) : Type 0 where
  pub data_map : Dict (Quantity D)
  pub timekey : ℤ

-- Datarecord::addField
abbrev pub added_field :
    {D : Type 0} → Option (Quantity D) → String → Quantity D → Datarecord D → Result (Datarecord D)
added_field (some _) n v r = err field_exists
added_field none n v r = ok (record r { data_map = place before n v r.data_map })

abbrev pub put_field : {D : Type 0} → String → Quantity D → Datarecord D → Result (Datarecord D)
put_field n v r = added_field (find r.data_map n) n v r

-- Datarecord::getValue
abbrev pub found_field : {D : Type 0} → Option (Quantity D) → Result (Quantity D)
found_field none = err field_not_found
found_field (some v) = ok v

unfoldable pub get_field : {D : Type 0} → String → Datarecord D → Result (Quantity D)
get_field n r = found_field (find r.data_map n)

-- A row of the second query
pub record FieldRow (D : Type 0) : Type 0 where
  pub amount : D
  pub fieldname : String
  pub mfieldid : ℕ
  pub classname : String
  pub unit : String
  pub sensorid : ℕ

-- The variables of the loop over the rows; `windspeed`, `windunit` and `windname` are read where `haswind` is set.
pub record NearState (D : Type 0) : Type 0 where
  pub result : Datarecord D
  pub haswind : Bool
  pub windspeed : D
  pub winddir : D
  pub windunit : String
  pub windname : String

-- The first query
pub record NearQuery : Type 0 where
  pub latest : Bool
  pub from : ℤ
  pub to : ℤ

unfoldable pub near_query : ℤ → Bool → ℤ → NearQuery
near_query timekey backwards window =
    if backwards
    then record { latest = true; from = timekey -ℤ window; to = timekey }
    else record { latest = false; from = timekey; to = timekey +ℤ window }

-- What the loop does with a row
pub data RowKind : Type 0 where
  unclassed speed direction field : RowKind

abbrev pub row_kind : {D : Type 0} → FieldRow D → RowKind
row_kind r =
    if str_eq r.classname "NULL"
    then RowKind.unclassed
    else if str_eq r.fieldname "wind"
    then RowKind.speed
    else if str_eq r.fieldname "winddir"
    then RowKind.direction
    else RowKind.field

module _ {D : Type 0} ⦃d : Double D⦄ ⦃c : Libm D⦄ (azi : D) (fq_name : ℕ → ℕ → Result String) where
  abbrev pub take_field : String → Result (Quantity D) → NearState D → Result (NearState D)
  take_field n (err e) s = err e
  take_field n (ok v) s = put_field n v s.result >>= λ r. ok (record s { result = r })

  -- A row of this name
  abbrev pub take_as :
      RowKind → String → FieldRow D → Result (Quantity D) → NearState D → Result (NearState D)
  take_as RowKind.unclassed n r v s = ok s
  take_as RowKind.speed n r v s =
      ok (record s { haswind = true; windspeed = r.amount; windunit = r.unit; windname = n })
  take_as RowKind.direction n r v s = ok (record s { winddir = r.amount })
  take_as RowKind.field n r v s = take_field n v s

  abbrev pub row_value : FieldRow D → Result (Quantity D)
  row_value r = new_basic_value azi r.classname r.amount r.unit

  abbrev pub take_row : FieldRow D → NearState D → Result (NearState D)
  take_row r s = fq_name r.sensorid r.mfieldid >>= λ n. take_as (row_kind r) n r (row_value r) s

  abbrev pub take_rows : List (FieldRow D) → NearState D → Result (NearState D)
  take_rows [] s = ok s
  take_rows (r ∷ rs) s = take_row r s >>= take_rows rs

  abbrev pub wind_value : NearState D → Quantity D
  wind_value s = of_vector (polar s.windspeed (d.of_int (d.trunc s.winddir)) true) s.windunit

  abbrev pub with_wind : NearState D → Result (Datarecord D)
  with_wind s = if s.haswind then put_field s.windname (wind_value s) s.result else ok s.result

  -- The record of a time
  abbrev pub start_state : D → ℤ → NearState D
  start_state left timekey = record {
    result = record { data_map = []; timekey = timekey };
    haswind = false;
    windspeed = left;
    winddir = d.lit (pos 0) 0;
    windunit = "";
    windname = "";
  }

  -- atoi of the first row, which is "NULL" where no row of the table is in the window
  abbrev pub atoi_or_null : Option ℤ → ℤ
  atoi_or_null none = pos 0
  atoi_or_null (some t) = t

  abbrev pub first_key : Bool → List (Option ℤ) → Result ℤ
  first_key ignoreerrors [] = if ignoreerrors then err undefined else err no_timekey
  first_key ignoreerrors (t ∷ _) = ok (atoi_or_null t)

  unfoldable pub record_of : D → ℤ → List (FieldRow D) → Result (Datarecord D)
  unfolding of_vector polar new_basic_value
  record_of left timekey rows = take_rows rows (start_state left timekey) >>= with_wind

  module _ (timekeys : NearQuery → List ℕ → Result (List (Option ℤ)))
      (fields_at : ℤ → List ℕ → Result (List (FieldRow D))) where
    -- QueryProcessor::nearRecord, for the ids of the sensors of the station
    unfoldable pub near_record : D → Bool → ℤ → Result (List ℕ) → Bool → ℤ → Result (Datarecord D)
    unfolding near_query record_of
    near_record left ignoreerrors timekey sensorids backwards window = sensorids >>= λ ids.
        timekeys (near_query timekey backwards window) ids >>= λ keys.
        first_key ignoreerrors keys >>= λ key. fields_at key ids >>= λ rows. record_of left key rows
