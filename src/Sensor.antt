-- ===== src/Sensor.antt =====
-- lib/DataRecorder.cc, lib/SensorStation.cc and the part of lib/Station.cc that is behind a packet: the
-- recorders of a station's sensors, the map file and the rows that go to the outlets. The narrowing of a
-- row's value to `float` is left out, and an access outside the packet counts as an exception.
pub mod Laws
pub mod Wind
use meteo.Base.{
  ℕ, Bool, true, false, List, [], ◌∷◌, ◌++◌, map, Option, none, some, Result, ok, err, ◌>>=◌,
  if◌then◌else◌, String, sensor_not_found, reader_not_found,
}
use Prim.Native.String.{◌++◌ as ◌+s◌, compare}
use Prim.Native.Nat.{Ordering}
use meteo.Base.Text.{str_eq}
use meteo.Base.Dict.{Dict, find, insert, each}
use meteo.Base.Int.{ℤ}
use meteo.Base.Double.{Double}
use meteo.Time.Timeval.{Timeval}
use meteo.Vector.{Libm}
use meteo.Value.Quantity.{Quantity, get_azideg}
use meteo.Reader.Values
use meteo.Recorder.Basic.{Row}
use meteo.Recorder.Factory
use meteo.Recorder.Factory.{Recorder, get_recorder}
use meteo.Station.{Managed, Readers, find_reader, found}

abbrev pub before : String → String → Bool
before a b = elim (compare a b) [ Ordering.lt ↦ true | _ ↦ false ]

-- `recordermap_t`
abbrev pub Recorders : Type 0 → Type 0
Recorders D = Dict (Recorder D)

-- `mapdata_t`
abbrev pub MapData : Type 0 → Type 0
MapData D = Dict (D × String)

pub record SensorStation (D : Type 0) : Type 0 where
  pub name : String
  pub sensorid : ℕ
  pub recorders : Recorders D

-- `sensormap_t`
abbrev pub Sensors : Type 0 → Type 0
Sensors D = Dict (SensorStation D)

-- The times of the two calls of `now()` in the update of a reader's recorder.
abbrev pub Clock : Type 0
Clock = String → Timeval × Timeval

-- The name of a reader: that of the sensor, a dot, that of the field.
abbrev pub reader_name : String → String → String
reader_name sensor field = sensor +s ("." +s field)

module _ {D : Type 0} ⦃d : Double D⦄ where
  -- DataRecorder::addRecorder, with the recorder that the factory gives
  abbrev pub add_made : String → Result (Recorder D) → Recorders D → Result (Recorders D)
  add_made n (ok r) m = ok (insert before n r m)
  add_made n (err e) m = err e

  -- DataRecorder::reset
  unfoldable pub reset_recorders : Timeval → Recorders D → Recorders D
  unfolding Factory.reset
  reset_recorders now m = each (λ _ r. Factory.reset now r) m

  -- Station::reset, by SensorStation::reset
  abbrev pub reset_sensors : Timeval → Sensors D → Sensors D
  reset_sensors now m = each (λ _ s. record s { recorders = reset_recorders now s.recorders }) m

  module _ ⦃c : Libm D⦄ where
    -- `try { i->second.update(v) } catch (MeteoException&) { }`
    abbrev pub kept : Recorder D → Result (Recorder D) → Recorder D
    kept r (ok r') = r'
    kept r (err _) = r

    unfoldable pub update_at : Timeval × Timeval → Quantity D → Recorder D → Recorder D
    unfolding Factory.update
    update_at (s, now) q r = kept r (Factory.update s now q r)

    -- DataRecorder::update
    abbrev pub updated_entry :
        Option (Recorder D) → Recorders D → Recorders D → Result (Recorders D)
    updated_entry none old new = err sensor_not_found
    updated_entry (some _) old new = ok new

    unfoldable pub update_recorder :
        Timeval × Timeval → String → Quantity D → Recorders D → Result (Recorders D)
    unfolding update_at
    update_recorder t n q m =
        updated_entry (find m n) m (each (λ k r. if str_eq k n then update_at t q r else r) m)

    module _ (today : ℕ → ℕ → ℤ) (azi : D) where
      -- Station::readValue
      unfoldable pub read_value : Readers D → List ℕ → String → Result (Quantity D)
      unfolding Values.v
      read_value readers packet n = found (find_reader readers n) >>= λ r.
          Values.v today azi r.kind r.cal r.classname r.unit packet

    -- Mapfile::add for a recorder that was updated, and for the direction of a wind
    abbrev pub add_direction : String → Quantity D → MapData D → MapData D
    add_direction n q m =
        if str_eq q.classname "Wind" then insert before (n +s "dir") (get_azideg q, "deg") m else m

    abbrev pub add_value : String → Quantity D → Result D → String → MapData D → MapData D
    add_value n q (ok x) unit m = add_direction n q (insert before n (x, unit) m)
    add_value n q (err _) unit m = m

    -- The body of the loop of SensorStation::update, for a recorder and the content of the map file: an exception of
    -- the reader or of the recorder ends it, and is caught.
    unfoldable pub field_updated :
        String → Quantity D → Recorder D → Result (Recorder D) → MapData D → Recorder D × MapData D
    unfolding Factory.value_of
    field_updated n q r (err _) data_map = (r, data_map)
    field_updated n q r (ok r') data_map =
        (r', add_value n q (Factory.value_of r') r'.unit data_map)

    unfoldable pub update_field :
        Timeval × Timeval
        → String
        → Recorder D
        → Result (Quantity D)
        → MapData D
        → Recorder D × MapData D
    unfolding Factory.update field_updated
    update_field t n r (err _) data_map = (r, data_map)
    update_field (s, now) n r (ok q) data_map =
        field_updated n q r (Factory.update s now q r) data_map

    -- SensorStation::update; `read` is the parent's readValue on the packet.
    abbrev pub update_fields :
        (String → Result (Quantity D))
        → Clock
        → String
        → Recorders D
        → MapData D
        → Recorders D × MapData D
    update_fields read clock sensor [] data_map = ([], data_map)
    update_fields read clock sensor ((n, r) ∷ rest) data_map =
        let reader = reader_name sensor n in
        let first = update_field (clock reader) reader r (read reader) data_map in
        let others = update_fields read clock sensor rest first.1 in
        ((n, first.0) ∷ others.0, others.1)

    -- Station::update: the sensors and the data that the map file publishes, which starts empty
    abbrev pub update_sensors :
        (String → Result (Quantity D)) → Clock → Sensors D → MapData D → Sensors D × MapData D
    update_sensors read clock [] data_map = ([], data_map)
    update_sensors read clock ((k, s) ∷ rest) data_map =
        let first = update_fields read clock s.name s.recorders data_map in
        let others = update_sensors read clock rest first.1 in
        ((k, record s { recorders = first.0 }) ∷ others.0, others.1)

    unfoldable pub update :
        (String → Result (Quantity D)) → Clock → Sensors D → Sensors D × MapData D
    unfolding update_field
    update read clock m = update_sensors read clock m []

    -- DataRecorder::sendOutlet
    unfoldable pub send_recorders : (String → ℕ) → Recorders D → List (Row D)
    unfolding Factory.send_outlet
    send_recorders field_id [] = []
    send_recorders field_id ((_, r) ∷ m) =
        Factory.send_outlet field_id r ++ send_recorders field_id m

    -- Station::sendOutlet: the batch of the outlet, each row with the id of its sensor
    unfoldable pub send_outlet : (String → ℕ) → Sensors D → List (ℕ × Row D)
    send_outlet field_id [] = []
    send_outlet field_id ((_, s) ∷ m) =
        map (λ row. (s.sensorid, row)) (send_recorders field_id s.recorders)
        ++ send_outlet field_id m
