-- ===== src/Poll.antt =====
-- The loop of src/meteopoll.cc with startLoop, getPacket, expectMorePackets, addOutlet and sendOutlets of
-- lib/Station.cc and include/Station.h. The loop runs for the readings of a trace; what the channel answers
-- to startLoop and readPacket stands in the trace, and so does the clock, in seconds. The alarm and the limits of
-- the process are left out.
pub mod Laws
pub mod Keys
pub mod Rounds
pub mod History
use meteo.Base.{
  ℕ, suc, ◌-◌, ◌/◌, ◌%◌, ◌==◌, ltb, Bool, List, [], ◌∷◌, ◌++◌, Result, ok, err, if◌then◌else◌,
  String,
}
use meteo.Base.Int.{ℤ}
use meteo.Base.Double.{Double}
use meteo.Time.Timeval.{Timeval}
use meteo.Vector.{Libm}
use meteo.Recorder.Basic.{Row}
use meteo.Station.{Readers}
use meteo.Sensor
use meteo.Sensor.{Sensors, MapData, Clock, reset_sensors, read_value, update}

-- What the world does in one round of the inner loop: the answers to startLoop, where a loop is due, and to
-- readPacket, the times of the update, the time of looptime.now() and that of a reset.
pub record Reading : Type 0 where
  pub started : Result (Unit {0})
  pub packet : Result (List ℕ)
  pub clock : Clock
  pub now : ℕ
  pub reset_at : Timeval

-- Timeval::getMinute: the quotient, in an `int`, of which only equality is asked
abbrev pub minute_of : ℕ → ℕ
minute_of now = now / 60 % 4294967296

-- Timeval::getTimekey
abbrev pub minute_key : ℕ → ℕ
minute_key now = now - now % 60

-- The station, what its outlets write to, the content of the map file and the loop's `minute`. `requests` counts
-- the calls of startLoop.
pub record Polled (S D : Type 0) : Type 0 where
  pub packets : ℕ
  pub requests : ℕ
  pub minute : ℕ
  pub sensors : Sensors D
  pub published : MapData D
  pub world : S

-- A result, and the state that a return or an exception leaves
abbrev pub Attempt : Type 0 → Type 0
Attempt S = Result (Unit {0}) × S

abbrev pub proceed : {S : Type 0} → Attempt S → (S → Attempt S) → Attempt S
proceed (ok _, s) next = next s
proceed (err e, s) next = (err e, s)

-- Station::sendOutlet, for one outlet
abbrev pub Sending : Type 0 → Type 0 → Type 0
Sending S D = ℕ → List (ℕ × Row D) → S → Attempt S

-- Station::addOutlet
abbrev pub add_outlet : {S D : Type 0} → Sending S D → List (Sending S D) → List (Sending S D)
add_outlet o outlets = outlets ++ (o ∷ [])

-- Station::sendOutlets
unfoldable pub send_outlets :
    {S D : Type 0} → List (Sending S D) → ℕ → List (ℕ × Row D) → S → Attempt S
send_outlets [] key rows w = (ok tt, w)
send_outlets (o ∷ outlets) key rows w = proceed (o key rows w) (send_outlets outlets key rows)

-- startLoop(10)
abbrev pub start_loop : {S D : Type 0} → Result (Unit {0}) → Polled S D → Attempt (Polled S D)
start_loop (ok _) s = (ok tt, record s { packets = 10; requests = suc s.requests })
start_loop (err e) s = (err e, s)

-- Station::expectMorePackets
abbrev pub expect_more_packets : {S D : Type 0} → Polled S D → Bool
expect_more_packets s = ltb 0 s.packets

-- The outer loop, where the inner one has ended
abbrev pub ready : {S D : Type 0} → Reading → Polled S D → Attempt (Polled S D)
ready r s = if expect_more_packets s then (ok tt, s) else start_loop r.started s

-- Station::getPacket
abbrev pub get_packet : {S D : Type 0} → Polled S D → Polled S D
get_packet s = record s { packets = s.packets - 1 }

module _ {S D : Type 0} ⦃d : Double D⦄ ⦃c : Libm D⦄ (today : ℕ → ℕ → ℤ) (azi : D)
    (readers : Readers D) (field_id : String → ℕ) (outlets : List (Sending S D)) where
  -- s->update(p)
  unfoldable pub update_station : List ℕ → Clock → Polled S D → Polled S D
  unfolding update
  update_station bytes clock s =
      let (sensors, content) = update (read_value today azi readers bytes) clock s.sensors in
      record s { sensors = sensors; published = content }

  -- The calls of a minute that is over
  abbrev pub saved : Reading → Polled S D → Attempt S → Attempt (Polled S D)
  saved r s (err e, w) = (err e, record s { world = w })
  saved r s (ok _, w) = (
    ok tt,
    record s { world = w; sensors = reset_sensors r.reset_at s.sensors; minute = minute_of r.now },
  )

  unfoldable pub end_minute : Reading → Polled S D → Attempt (Polled S D)
  unfolding send_outlets Sensor.send_outlet
  end_minute r s =
      let over =
        saved r s (
          send_outlets outlets (minute_key r.now) (Sensor.send_outlet field_id s.sensors)
            s.world) in
      if s.minute == minute_of r.now then (ok tt, s) else over

  abbrev pub handle : Reading → Result (List ℕ) → Polled S D → Attempt (Polled S D)
  handle r (err e) s = (err e, s)
  handle r (ok bytes) s = end_minute r (update_station bytes r.clock s)

  -- A round of the inner loop, and the start of a loop where one is due
  unfoldable pub poll_packet : Reading → Polled S D → Attempt (Polled S D)
  unfolding end_minute update_station
  poll_packet r s = proceed (ready r s) λ s. handle r r.packet (get_packet s)

  unfoldable pub poll : List Reading → Polled S D → Attempt (Polled S D)
  unfolding poll_packet
  poll [] s = (ok tt, s)
  poll (r ∷ rs) s = proceed (poll_packet r s) (poll rs)

-- The state at the start of the loop
abbrev pub begin : {S D : Type 0} → ℕ → Sensors D → S → Polled S D
begin now sensors w = record {
  packets = 0;
  requests = 0;
  minute = minute_of now;
  sensors = sensors;
  published = [];
  world = w;
}
