-- ===== src/Tests/Polls.antt =====
-- The poll loop for a station with one sensor, over a trace of three packets in two minutes.
use meteo.Base.{ℕ, ◌≡◌, refl, List, [], ◌∷◌, map, ok, String, arith}
use meteo.Base.Int.{ℤ, pos}
use meteo.Base.Double.{int_double}
use meteo.Time.Timeval.{of_seconds}
use meteo.Poll.{Polled, poll, poll_packet, end_minute, send_outlets, begin}
use meteo.Poll.Laws.{Heard, heard, ends, send_all, world_of, poll-ends}
use meteo.Poll.Keys.{noted, IsRising, poll-IsRising}
use meteo.Poll.Rounds.{IsCounted, poll-IsCounted}
use meteo.Tests.Stations.{readers, sensors, at_second, no_day, int_libm}

abbrev field_id : String → ℕ
field_id f = 0

abbrev heard_at : ℕ → ℕ → Heard
heard_at t byte = record {
  bytes = 1 ∷ byte ∷ [];
  clock = at_second t;
  now = t;
  reset_at = of_seconds (pos t);
}

abbrev trace : List Heard
trace = heard_at 130 21 ∷ heard_at 185 22 ∷ heard_at 190 23 ∷ []

abbrev start : Polled (List ℕ) ℤ
start = begin 120 sensors []

poll-ends_example :
    world_of no_day
      (pos 0)
      readers
      field_id
      (noted ∷ [])
      (poll no_day (pos 0) readers field_id (noted ∷ []) (map heard trace) start)
    ≡ send_all no_day
        (pos 0)
        readers
        field_id
        (noted ∷ [])
        start.sensors
        (ends start.minute [] trace)
        start.world
poll-ends_example = poll-ends no_day (pos 0) readers field_id (noted ∷ []) trace start

poll-IsRising_example :
    IsRising 120
      (poll no_day
        (pos 0)
        readers
        field_id
        (noted ∷ [])
        (map heard trace)
        (begin 120 sensors [])).1.world
poll-IsRising_example =
    poll-IsRising no_day (pos 0) readers field_id 120 trace sensors
      (omega arith, (omega arith, (omega arith, tt)))

keys_run :
    (poll no_day (pos 0) readers field_id (noted ∷ []) (map heard trace) start).1.world ≡ 180 ∷ []
unfolding poll poll_packet end_minute send_outlets
keys_run = refl

abbrev last : Polled (List ℕ) ℤ
last = (poll no_day (pos 0) readers field_id (noted ∷ []) (map heard trace) start).1

poll_run : poll no_day (pos 0) readers field_id (noted ∷ []) (map heard trace) start ≡ (ok tt, last)
unfolding poll poll_packet end_minute send_outlets
poll_run = refl

poll-IsCounted_example : IsCounted no_day (pos 0) readers field_id (noted ∷ []) 3 start last
poll-IsCounted_example =
    poll-IsCounted no_day (pos 0) readers field_id (noted ∷ []) (map heard trace) start last
      (omega arith) poll_run
