-- ===== src/Outlet.antt =====
-- lib/Outlet.cc, lib/QueryOutlet.cc and lib/Datasink.cc: the rows that a station sends, the queries they become
-- and the sinks that take the queries. The texts of the queries are those of snprintf, handed in as `printed`,
-- and so are the narrowing of a value to `float`, the database and the message queue.
pub mod Laws
use meteo.Base.{
  ℕ, zero, suc, Bool, true, false, List, [], ◌∷◌, ◌++◌, map, Option, none, some, Result, ok, err,
  ◌>>=◌, String, if◌then◌else◌, no_preferences, no_datasink,
}
use meteo.Base.Text.{str_eq}
use meteo.Recorder.Basic.{Row}
use meteo.Queue.{Text, MessageQueue, enqueue}

-- outlet_t, less the unit, which no outlet of the code reads
pub record OutletRow (D : Type 0) : Type 0 where
  pub sensorid : ℕ
  pub fieldid : ℕ
  pub value : D

-- The classes of sinks
pub data Datasink : Type 0 where
  debug_sink file_sink mysql_sink queue_sink : Datasink

-- What the sinks write to: the log, the update file, the queue and the database
pub record World (Q Db : Type 0) : Type 0 where
  pub log : List Text
  pub file : List Text
  pub queue : Q
  pub db : Db

-- DatasinkFactory::d, the preferences that all factories share: none where d is NULL
abbrev pub Preferences : Type 0
Preferences = Option (List String)

-- The two constructors and the destructor of DatasinkFactory
abbrev pub default_factory : Preferences → Preferences
default_factory (some p) = some p
default_factory none = some []

abbrev pub factory_of : List String → Preferences → Preferences
factory_of prefs d = some prefs

abbrev pub destroyed : Preferences → Preferences
destroyed d = none

-- The loop of newDatasink; `opens` tells whether the message queue can be set up. The constructors of the other
-- sinks do not throw.
abbrev pub first_sink : Bool → List String → Result Datasink
first_sink opens [] = err no_datasink
first_sink opens (p ∷ prefs) =
    let rest = first_sink opens prefs in
    if str_eq p "msgqueue"
    then (if opens then ok Datasink.queue_sink else rest)
    else if str_eq p "mysql"
    then ok Datasink.mysql_sink
    else if str_eq p "file"
    then ok Datasink.file_sink
    else if str_eq p "debug"
    then ok Datasink.debug_sink
    else rest

abbrev pub preferred : Bool → Preferences → Result Datasink
preferred opens none = err no_preferences
preferred opens (some []) = err no_preferences
preferred opens (some (p ∷ prefs)) = first_sink opens (p ∷ prefs)

-- QueryOutlet(stationname): a factory that lives as long as the expression
unfoldable pub query_outlet : Bool → Preferences → Result Datasink × Preferences
query_outlet opens d = (preferred opens (default_factory d), destroyed (default_factory d))

module _ (O : MessageQueue) {Db : Type 0} (perform : Text → Db → Result ℕ × Db)
    (behind : Text) where
  abbrev pub queued : World O.State Db → Result O.State → Result (Unit {0}) × World O.State Db
  queued w (err e) = (err e, w)
  queued w (ok q) = (ok tt, record w { queue = q })

  abbrev pub returned : World O.State Db → Result ℕ × Db → Result (Unit {0}) × World O.State Db
  returned w (err e, db) = (err e, record w { db = db })
  returned w (ok rows, db) = (ok tt, record w { db = db })

  abbrev pub go_on :
      Result (Unit {0}) × World O.State Db
      → (World O.State Db → Result (Unit {0}) × World O.State Db)
      → Result (Unit {0}) × World O.State Db
  go_on (err e, w) next = (err e, w)
  go_on (ok _, w) next = next w

  -- receive of one query, in each class
  unfoldable pub receive : Datasink → Text → World O.State Db → Result (Unit {0}) × World O.State Db
  receive Datasink.debug_sink query w = (ok tt, record w { log = w.log ++ (query ∷ []) })
  receive Datasink.file_sink query w = (ok tt, record w { file = w.file ++ (query ∷ []) })
  receive Datasink.mysql_sink query w = returned w (perform query w.db)
  receive Datasink.queue_sink query w = queued w (enqueue O behind query w.queue)

  -- Datasink::receive(stringlist), which ends with the first exception
  unfoldable pub receive_all :
      Datasink → List Text → World O.State Db → Result (Unit {0}) × World O.State Db
  unfolding receive
  receive_all sink [] w = (ok tt, w)
  receive_all sink (q ∷ qs) w = go_on (receive sink q w) (receive_all sink qs)

  module _ {D : Type 0} (narrow : D → D) (printed : ℕ → OutletRow D → Text) where
    -- Outlet::send
    unfoldable pub send : ℕ → Row D → List (OutletRow D) → List (OutletRow D)
    send sensorid row batch =
        batch
        ++ (record { sensorid = sensorid; fieldid = row.fieldid; value = narrow row.amount } ∷ [])

    -- The calls of send of the sensors of a station
    unfoldable pub send_each : List (ℕ × Row D) → List (OutletRow D) → List (OutletRow D)
    unfolding send
    send_each [] batch = batch
    send_each ((sensorid, row) ∷ rows) batch = send_each rows (send sensorid row batch)

    -- What Outlet::flush leaves of the batch, which an exception does not reach
    abbrev pub flushed :
        List (OutletRow D)
        → Result (Unit {0}) × World O.State Db
        → Result (Unit {0}) × List (OutletRow D) × World O.State Db
    flushed batch (err e, w) = (err e, batch, w)
    flushed batch (ok _, w) = (ok tt, [], w)

    -- QueryOutlet::flush
    unfoldable pub flush :
        Datasink
        → ℕ
        → List (OutletRow D)
        → World O.State Db
        → Result (Unit {0}) × List (OutletRow D) × World O.State Db
    unfolding receive_all
    flush sink timekey batch w = flushed batch (receive_all sink (map (printed timekey) batch) w)

    -- Station::sendOutlet, for the rows that the recorders of the station send
    unfoldable pub send_outlet :
        Datasink
        → ℕ
        → List (ℕ × Row D)
        → List (OutletRow D)
        → World O.State Db
        → Result (Unit {0}) × List (OutletRow D) × World O.State Db
    unfolding flush send_each
    send_outlet sink timekey rows batch w = flush sink timekey (send_each rows batch) w
