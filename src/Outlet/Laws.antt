-- ===== src/Outlet/Laws.antt =====
-- Where the rows of a station go by way of lib/Datasink.cc.
use meteo.Base.{
  ℕ, suc, ◌≤◌, ◌≡◌, refl, sym, ap, ◌∙◌, Bool, List, [], ◌∷◌, ◌++◌, map, none, some, Result, ok, err,
  length, append_nil, append_cons, All, no_preferences, take,
}
use meteo.Recorder.Basic.{Row}
use meteo.Queue.{Text, MessageQueue, IsFifo, rounds}
use meteo.Queue.Laws.{IsWaiting, enqueue-some, after, rounds-after}
use meteo.Outlet.{
  OutletRow, Datasink, World, Preferences, query_outlet, receive, receive_all, go_on, queued,
  returned, send, send_each, flush, flushed, send_outlet,
}

-- The destructor of a factory takes the preferences away from all factories: whatever they are, the first
-- QueryOutlet may find a sink, but the second throws for want of preferences.
pub query_outlet_second :
    (opens opens' : Bool) (d : Preferences)
    → (query_outlet opens' (query_outlet opens d).1).0 ≡ err no_preferences
unfolding query_outlet
query_outlet_second opens opens' none = refl
query_outlet_second opens opens' (some p) = refl

length-map : {A B : Type 0} (f : A → B) (xs : List A) → length (map f xs) ≡ length xs
length-map f [] = refl
length-map f (x ∷ xs) = ap (λ n. suc n) (length-map f xs)

module _ (O : MessageQueue) {Db : Type 0} (perform : Text → Db → Result ℕ × Db)
    (behind : Text) where
  -- The queue has room for every message.
  abbrev pub IsRoomy : Type 0
  IsRoomy = (m : Text) (s : O.State) → (s' : O.State) × (O.msgsnd m s ≡ some s')

  receive_all-queue :
      (f : IsFifo O) (room : IsRoomy)
      → 8 ≤ length behind
      → (qs waiting : List Text) (w : World O.State Db) → All (λ q. length q ≤ 4088) qs
      → IsWaiting O f w.queue waiting
      → (w' : World O.State Db) × (receive_all O perform behind Datasink.queue_sink qs w
          ≡ (ok tt, w'))
        × IsWaiting O f w'.queue (waiting ++ qs)
  unfolding receive_all receive
  receive_all-queue f room enough [] waiting w fit old = (w, refl, rw (append_nil waiting) old)
  receive_all-queue f room enough (q ∷ qs) waiting w (fits, fit) old =
      let (s', has_room) = room (q ++ take 8 behind) w.queue in
      let (sent, more) = enqueue-some O f behind q w.queue s' waiting old enough fits has_room in
      let (w', done, all) =
        receive_all-queue f room enough qs (waiting ++ (q ∷ [])) (record w { queue = s' }) fit
          more in
      (
        w',
        ap
              (λ r.
                go_on O perform behind (queued O perform behind w r)
                  (receive_all O perform behind Datasink.queue_sink qs))
              sent
            ∙ done,
        rw (sym (append_cons waiting qs q)) all,
      )

  module _ {D : Type 0} (narrow : D → D) (printed : ℕ → OutletRow D → Text) where
    abbrev pub entry_of : ℕ × Row D → OutletRow D
    entry_of (sensorid, row) = record {
      sensorid = sensorid;
      fieldid = row.fieldid;
      value = narrow row.amount;
    }

    -- The queries of the rows of a time.
    abbrev pub queries : ℕ → List (ℕ × Row D) → List Text
    queries timekey rows = map (λ r. printed timekey (entry_of r)) rows

    send_each-append :
        (rows : List (ℕ × Row D)) (batch : List (OutletRow D))
        → send_each O perform behind narrow printed rows batch ≡ batch ++ map entry_of rows
    unfolding send_each send
    send_each-append [] batch = sym (append_nil batch)
    send_each-append ((sensorid, row) ∷ rows) batch =
        send_each-append rows (batch ++ (entry_of (sensorid, row) ∷ []))
        ∙ append_cons batch (map entry_of rows) (entry_of (sensorid, row))

    map-entry_of :
        (timekey : ℕ) (rows : List (ℕ × Row D))
        → map (printed timekey) (map entry_of rows) ≡ queries timekey rows
    map-entry_of timekey [] = refl
    map-entry_of timekey (r ∷ rows) =
        ap (◌∷◌ (printed timekey (entry_of r))) (map-entry_of timekey rows)

    -- The rows of a station, sent to a query outlet whose sink is an empty message queue with room, where no
    -- query is longer than 4088 bytes: the batch is empty again, and as many rounds of meteodequeue as there are
    -- rows hand the query of every row to the database, in order, and leave the queue empty.
    pub send_outlet-rounds :
        (f : IsFifo O) (room : IsRoomy)
        → 8 ≤ length behind
        → (timekey : ℕ) (rows : List (ℕ × Row D)) (w : World O.State Db)
        → All (λ q. length q ≤ 4088) (queries timekey rows)
        → f.contents w.queue ≡ []
        → (w' : World O.State Db) × (s' : O.State) × (send_outlet O perform behind narrow printed
              Datasink.queue_sink timekey rows [] w
            ≡ (ok tt, [], w'))
          × (rounds O perform (length rows) w'.queue w.db
              ≡ (s', after O f perform (queries timekey rows) w.db))
          × (f.contents s' ≡ [])
    unfolding send_outlet flush
    send_outlet-rounds f room enough timekey rows w fit empty =
        let qs = queries timekey rows in
        let none_waits : IsWaiting O f w.queue [] = rw empty tt in
        let (w', sent, waiting) = receive_all-queue f room enough qs [] w fit none_waits in
        let (s', performed_all, gone) = rounds-after O f perform qs w'.queue w.db waiting in
        let batch =
          ap (map (printed timekey)) (send_each-append rows []) ∙ map-entry_of timekey rows in
        (
          w',
          s',
          ap
                (λ ts.
                  flushed O perform behind narrow printed
                    (send_each O perform behind narrow printed rows [])
                    (receive_all O perform behind Datasink.queue_sink ts w))
                batch
              ∙ ap
                  (flushed O perform behind narrow printed
                    (send_each O perform behind narrow printed rows []))
                  sent,
          ap (λ n. rounds O perform n w'.queue w.db)
                (sym (length-map (λ r. printed timekey (entry_of r)) rows))
              ∙ performed_all,
          gone,
        )

    receive_all-mysql :
        ((q : Text) (db : Db) → (n : ℕ) × ((perform q db).0 ≡ ok n))
        → (f : IsFifo O) (qs : List Text) (w : World O.State Db)
        → receive_all O perform behind Datasink.mysql_sink qs w
          ≡ (ok tt, record w { db = after O f perform qs w.db })
    unfolding receive_all receive
    receive_all-mysql works f [] w = refl
    receive_all-mysql works f (q ∷ qs) w =
        let (n, done) = works q w.db in
        ap
          (λ r.
            go_on O perform behind (returned O perform behind w (r, (perform q w.db).1))
              (receive_all O perform behind Datasink.mysql_sink qs))
          done
        ∙ receive_all-mysql works f qs (record w { db = (perform q w.db).1 })

    -- The rows of a station, sent to a query outlet whose sink is an empty message queue with room, where no query is
    -- longer than 4088 bytes, and a database that performs every query: after as many rounds of meteodequeue as there
    -- are rows the database is as if the sink had been the database itself.
    pub sinks_agree :
        (f : IsFifo O) (room : IsRoomy)
        → ((q : Text) (db : Db) → (n : ℕ) × ((perform q db).0 ≡ ok n))
        → 8 ≤ length behind
        → (timekey : ℕ) (rows : List (ℕ × Row D)) (w : World O.State Db)
        → All (λ q. length q ≤ 4088) (queries timekey rows)
        → f.contents w.queue ≡ []
        → (rounds O perform
            (length rows)
            (send_outlet O perform behind narrow printed Datasink.queue_sink timekey rows []
              w).2.queue
            w.db).1
          ≡ (send_outlet O perform behind narrow printed Datasink.mysql_sink timekey rows [] w).2.db
    unfolding send_outlet flush
    sinks_agree f room works enough timekey rows w fit empty =
        let (w', s', sent, performed_all, gone) =
          send_outlet-rounds f room enough timekey rows w fit empty in
        let batch =
          ap (map (printed timekey)) (send_each-append rows []) ∙ map-entry_of timekey rows in
        let each = send_each O perform behind narrow printed rows [] in
        ap (λ r. (rounds O perform (length rows) r.2.queue w.db).1) sent
        ∙ ap (λ r. r.1) performed_all
        ∙ sym (
            ap
              (λ ts.
                (flushed O perform behind narrow printed each
                  (receive_all O perform behind Datasink.mysql_sink ts w)).2.db)
              batch
            ∙ ap (λ r. (flushed O perform behind narrow printed each r).2.db)
                (receive_all-mysql works f (queries timekey rows) w))
