-- ===== src/Poll/Laws.antt =====
-- The loop of src/meteopoll.cc over a trace in which the channel answers.
use meteo.Base.{
  arith, ℕ, suc, ◌≡◌, refl, sym, ap, ◌∙◌, ◌==◌, List, [], ◌∷◌, ◌++◌, map, ok, err, if◌then◌else◌,
  String, ltb, Bool-cases, inl, inr, append_nil,
}
use mathlib.Core.Path.{fun_ext}
use meteo.Base.Int.{ℤ}
use meteo.Base.Double.{Double}
use meteo.Time.Timeval.{Timeval}
use meteo.Vector.{Libm}
use meteo.Station.{Readers}
use meteo.Sensor
use meteo.Sensor.{Sensors, Clock, reader_name}
use meteo.Sensor.Laws.{Event, packet, minute, after, run}
use meteo.Poll.{
  Reading, Polled, Attempt, Sending, minute_of, minute_key, proceed, send_outlets, ready,
  get_packet, saved, end_minute, update_station, handle, poll_packet, poll,
}

-- A reading for which the channel answers.
pub record Heard : Type 0 where
  pub bytes : List ℕ
  pub clock : Clock
  pub now : ℕ
  pub reset_at : Timeval

abbrev pub heard : Heard → Reading
heard h = record {
  started = ok tt;
  packet = ok h.bytes;
  clock = h.clock;
  now = h.now;
  reset_at = h.reset_at;
}

-- What a reading means to the recorders: a packet, and a reset where it comes in another minute.
abbrev pub packet_of : Heard → Event
packet_of h = packet h.bytes h.clock

abbrev pub resets : ℕ → Heard → List Event
resets m h = if m == minute_of h.now then [] else minute h.reset_at ∷ []

abbrev pub history : ℕ → List Heard → List Event
history m [] = []
history m (h ∷ hs) = packet_of h ∷ (resets m h ++ history (minute_of h.now) hs)

-- The minutes that end, with the time keys and the events up to the packet that ends them.
abbrev pub ends : ℕ → List Event → List Heard → List (ℕ × List Event)
ends m past [] = []
ends m past (h ∷ hs) =
    let seen = past ++ (packet_of h ∷ []) in
    let rest = ends (minute_of h.now) (seen ++ resets m h) hs in
    if m == minute_of h.now then rest else (minute_key h.now, seen) ∷ rest

module _ {D : Type 0} ⦃d : Double D⦄ ⦃c : Libm D⦄ (today : ℕ → ℕ → ℤ) (azi : D)
    (readers : Readers D) where
  pub run-append :
      (es more : List Event) (m : Sensors D)
      → run today azi readers (es ++ more) m
        ≡ run today azi readers more (run today azi readers es m)
  unfolding run
  run-append [] more m = refl
  run-append (e ∷ es) more m = run-append es more (after today azi readers e m)

  run-after :
      (es : List Event) (e : Event) (m : Sensors D)
      → run today azi readers (es ++ (e ∷ [])) m
        ≡ after today azi readers e (run today azi readers es m)
  unfolding run
  run-after es e m = run-append es (e ∷ []) m

  run-minute :
      (es : List Event) (now : Timeval) (m : Sensors D)
      → run today azi readers (es ++ (minute now ∷ [])) m
        ≡ Sensor.reset_sensors now (run today azi readers es m)
  unfolding after
  run-minute es now m = run-after es (minute now) m

module _ {S D : Type 0} ⦃d : Double D⦄ ⦃c : Libm D⦄ (today : ℕ → ℕ → ℤ) (azi : D)
    (readers : Readers D) (field_id : String → ℕ) (outlets : List (Sending S D)) where
  -- The outlets are sent the rows of each of the given times in turn, of the recorders after its events.
  abbrev pub send_all : Sensors D → List (ℕ × List Event) → S → Attempt S
  send_all m [] w = (ok tt, w)
  send_all m ((key, es) ∷ more) w =
      proceed
        (send_outlets outlets key (Sensor.send_outlet field_id (run today azi readers es m)) w)
        (send_all m more)

  abbrev pub world_of : Attempt (Polled S D) → Attempt S
  world_of (r, s) = (r, s.world)

  ready-heard :
      (h : Heard) (s : Polled S D)
      → (s' : Polled S D) × (ready (heard h) s ≡ (ok tt, s'))
        × (s'.sensors ≡ s.sensors)
        × (s'.world ≡ s.world)
        × (s'.minute ≡ s.minute)
  ready-heard h s = elim (Bool-cases (ltb 0 s.packets)) [
    | inl e ↦ (s, rw e refl, refl, refl, refl)
    | inr e ↦ (record s { packets = 10; requests = suc s.requests }, rw e refl, refl, refl, refl)
  ]

  -- A minute that ends: the outlets take the rows, and the loop goes on with recorders that are reset.
  abbrev restarted : Heard → Polled S D → S → Polled S D
  restarted h s w = record s {
    world = w;
    sensors = Sensor.reset_sensors h.reset_at s.sensors;
    minute = minute_of h.now;
  }

  saved-proceed :
      (h : Heard) (s : Polled S D) (next : Polled S D → Attempt (Polled S D)) (x : Attempt S)
      → world_of (proceed (saved today azi readers field_id outlets (heard h) s x) next)
        ≡ proceed x (λ w. world_of (next (restarted h s w)))
  saved-proceed h s next (ok _, w) = refl
  saved-proceed h s next (err e, w) = refl

  -- That a trace sends what its minutes hold, from each state and events that led to it.
  abbrev Follows : Sensors D → List Heard → Type 0
  Follows m hs =
      (past : List Event) (s : Polled S D)
      → s.sensors ≡ run today azi readers past m
      → world_of (poll today azi readers field_id outlets (map heard hs) s)
        ≡ send_all m (ends s.minute past hs) s.world

  end_minute-ends :
      (m : Sensors D) (h : Heard) (hs : List Heard) (seen : List Event) (s : Polled S D)
      → s.sensors ≡ run today azi readers seen m
      → Follows m hs
      → world_of (
          proceed
            (end_minute today azi readers field_id outlets (heard h) s)
            (poll today azi readers field_id outlets (map heard hs)))
        ≡ send_all m
            (if s.minute == minute_of h.now
              then ends (minute_of h.now) (seen ++ resets s.minute h) hs
              else (minute_key h.now, seen) ∷ ends (minute_of h.now) (seen ++ resets s.minute h) hs)
            s.world
  unfolding end_minute
  end_minute-ends m h hs seen s held later = elim (Bool-cases (s.minute == minute_of h.now)) [
    | inl e ↦
        let same : minute_of h.now ≡ s.minute = ground (arith, e) in
        rw (e, same, append_nil seen) (later seen s held)
    | inr e ↦
        let next = seen ++ (minute h.reset_at ∷ []) in
        let was_reset : Sensor.reset_sensors h.reset_at s.sensors ≡ run today azi readers next m =
          ap (Sensor.reset_sensors h.reset_at) held
          ∙ sym (run-minute today azi readers seen h.reset_at m) in
        rw e (
          saved-proceed h s (poll today azi readers field_id outlets (map heard hs)) (
            send_outlets outlets (minute_key h.now) (Sensor.send_outlet field_id s.sensors) s.world)
          ∙ ap
              (proceed (
                send_outlets outlets (minute_key h.now) (Sensor.send_outlet field_id s.sensors)
                  s.world))
              (fun_ext λ w. later next (restarted h s w) was_reset)
          ∙ ap
              (λ now.
                proceed
                  (send_outlets outlets (minute_key h.now) (Sensor.send_outlet field_id now)
                    s.world)
                  (send_all m (ends (minute_of h.now) next hs)))
              held)
  ]

  -- The packet of a reading, where nothing fails.
  pub round-heard :
      (m : Sensors D) (past : List Event) (h : Heard) (s : Polled S D)
      → s.sensors ≡ run today azi readers past m
      → (s' : Polled S D) × (poll_packet today azi readers field_id outlets (heard h) s
          ≡ end_minute today azi readers field_id outlets (heard h) s')
        × (s'.sensors ≡ run today azi readers (past ++ (packet_of h ∷ [])) m)
        × (s'.world ≡ s.world)
        × (s'.minute ≡ s.minute)
  unfolding poll_packet update_station after
  round-heard m past h s held =
      let (s', started, same, kept_world, kept_minute) = ready-heard h s in
      (
        update_station today azi readers field_id outlets h.bytes h.clock (get_packet s'),
        ap
            (λ x. proceed x λ s.
              handle today azi readers field_id outlets (heard h) (heard h).packet (get_packet s))
            started,
        ap (after today azi readers (packet_of h)) (same ∙ held)
            ∙ sym (run-after today azi readers past (packet_of h) m),
        kept_world,
        kept_minute,
      )

  poll-ends_from : (m : Sensors D) (hs : List Heard) → Follows m hs
  unfolding poll
  poll-ends_from m [] past s held = refl
  poll-ends_from m (h ∷ hs) past s held =
      let (s', round, held', world, same) = round-heard m past h s held in
      let seen = past ++ (packet_of h ∷ []) in
      ap (λ x. world_of (proceed x (poll today azi readers field_id outlets (map heard hs)))) round
      ∙ end_minute-ends m h hs seen s' held' (poll-ends_from m hs)
      ∙ rw (same, world) refl

  -- Where the channel answers: the loop sends the outlets, at each packet that comes in another minute than that
  -- before it, the rows of the recorders after all packets up to that one and after the resets at the earlier such
  -- packets, under the time key of that packet's minute, in order, and nothing else; it ends with the first
  -- exception of an outlet, and its result is that of the outlets.
  pub poll-ends :
      (hs : List Heard) (s : Polled S D)
      → world_of (poll today azi readers field_id outlets (map heard hs) s)
        ≡ send_all s.sensors (ends s.minute [] hs) s.world
  unfolding run
  poll-ends hs s = poll-ends_from s.sensors hs [] s refl
