-- ===== src/Tests/Sinks.antt =====
-- A queue without a limit, a database that keeps its queries, and the rows of two sensors.
use meteo.Base.{
  ℕ, ◌≡◌, ◌≤◌, refl, sym, ap, true, [], ◌∷◌, ◌++◌, List, length, Option, some, none, Result, ok,
  if◌then◌else◌, leb, arith,
}
use meteo.Recorder.Basic.{Row}
use meteo.Queue.{Text, MessageQueue, IsFifo, rounds}
use meteo.Queue.Laws.{after}
use meteo.Outlet.{OutletRow, Datasink, World, send_outlet}
use meteo.Outlet.Laws.{IsRoomy, queries, send_outlet-rounds, sinks_agree}

abbrev first : ℕ → List Text → Option (Text × List Text)
first n [] = none
first n (m ∷ ms) = if leb (length m) n then some (m, ms) else none

abbrev plain_queue : MessageQueue
plain_queue = record { State = List Text; msgsnd = λ m s. some (s ++ (m ∷ [])); msgrcv = first }

abbrev held : Option (List Text) → List Text
held none = []
held (some s) = s

leb_of_le : (m n : ℕ) → m ≤ n → leb m n ≡ true
leb_of_le m n h = ground arith

abbrev plain_fifo : IsFifo plain_queue
plain_fifo = record {
  contents = λ s. s;
  contents-msgsnd = λ m s s' e. sym (ap held e);
  msgrcv-contents = λ n m ms s e small. (ms, rw (e, leb_of_le (length m) n small) refl, refl);
}

abbrev perform : Text → List Text → Result ℕ × List Text
perform q db = (ok 1, db ++ (q ∷ []))

abbrev behind : Text
behind = 9 ∷ 9 ∷ 9 ∷ 9 ∷ 9 ∷ 9 ∷ 9 ∷ 9 ∷ []

abbrev printed : ℕ → OutletRow ℕ → Text
printed timekey e = timekey ∷ e.sensorid ∷ e.fieldid ∷ e.value ∷ []

abbrev rows : List (ℕ × Row ℕ)
rows = (1, record { fieldid = 4; amount = 21 }) ∷ (2, record { fieldid = 5; amount = 80 }) ∷ []

abbrev world : World (List Text) (List Text)
world = record { log = []; file = []; queue = []; db = [] }

roomy : IsRoomy plain_queue perform behind
roomy m s = (s ++ (m ∷ []), refl)

send_outlet-rounds_example :
    (w : World (List Text) (List Text)) × (s : List Text) × (send_outlet plain_queue perform behind
        (λ v. v)
        printed
        Datasink.queue_sink
        600
        rows
        []
        world
      ≡ (ok tt, [], w))
    × (rounds plain_queue perform 2 w.queue [] ≡ (
      s,
      after plain_queue plain_fifo perform
          (queries plain_queue perform behind (λ v. v) printed 600 rows)
          [],
    ))
    × (s ≡ [])
send_outlet-rounds_example =
    send_outlet-rounds plain_queue perform behind (λ v. v) printed plain_fifo roomy (omega arith)
      600 rows world (omega arith, (omega arith, tt)) refl

sinks_agree_example :
    (rounds plain_queue perform 2
      (send_outlet plain_queue perform behind
        (λ v. v)
        printed
        Datasink.queue_sink
        600
        rows
        []
        world).2.queue
      []).1
    ≡ (send_outlet plain_queue perform behind
        (λ v. v)
        printed
        Datasink.mysql_sink
        600
        rows
        []
        world).2.db
sinks_agree_example =
    sinks_agree plain_queue perform behind (λ v. v) printed plain_fifo roomy (λ q db. (1, refl))
      (omega arith) 600 rows world (omega arith, (omega arith, tt)) refl
