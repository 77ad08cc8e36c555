-- ===== src/Poll/History.antt =====
-- What the loop of src/meteopoll.cc does to the recorders of its station.
use meteo.Base.{
  arith, ℕ, ◌≡◌, refl, sym, ap, ◌∙◌, ◌==◌, List, [], ◌∷◌, ◌++◌, map, ok, err, String, Bool-cases,
  inl, inr,
}
use meteo.Base.Dict.{on}
use mathlib.Core.Path.{subst}
use meteo.Base.Int.{ℤ}
use meteo.Base.Double.{Double}
use meteo.Vector.{Libm}
use meteo.Station.{Readers}
use meteo.Sensor
use meteo.Sensor.{Sensors, reader_name}
use meteo.Sensor.Laws.{Event, minute, run, after, life, recorder_of, recorder_of-run, IsNamed}
use meteo.Poll.{
  Polled, Attempt, Sending, proceed, saved, end_minute, poll_packet, poll, send_outlets, minute_key,
  minute_of,
}
use meteo.Poll.Laws.{Heard, heard, packet_of, resets, history, round-heard}

module _ {S D : Type 0} ⦃d : Double D⦄ ⦃c : Libm D⦄ (today : ℕ → ℕ → ℤ) (azi : D)
    (readers : Readers D) (field_id : String → ℕ) (outlets : List (Sending S D)) where
  -- The recorders after an attempt that does not fail are those after the events.
  abbrev Leads : List Event → Sensors D → Attempt (Polled S D) → Type 0
  Leads es m (ok _, t) = t.sensors ≡ run today azi readers es m
  Leads es m (err e, t) = Unit

  Leads-ok :
      (es : List Event) (m : Sensors D) (t : Polled S D) (x : Attempt (Polled S D))
      → Leads es m x
      → x ≡ (ok tt, t)
      → t.sensors ≡ run today azi readers es m
  Leads-ok es m t x h e = subst (Leads es m) e h

  -- What the rest of a trace does, from each state.
  abbrev Lasts : List Heard → Type 0
  Lasts hs =
      (s : Polled S D)
      → Leads (history s.minute hs) s.sensors
          (poll today azi readers field_id outlets (map heard hs) s)

  Leads-saved :
      (h : Heard) (hs : List Heard) (s : Polled S D) (x : Attempt S)
      → Lasts hs
      → Leads (minute h.reset_at ∷ history (minute_of h.now) hs) s.sensors (
          proceed
            (saved today azi readers field_id outlets (heard h) s x)
            (poll today azi readers field_id outlets (map heard hs)))
  unfolding run after
  Leads-saved h hs s (err e, w) later = tt
  Leads-saved h hs s (ok _, w) later = later (record s {
    world = w;
    sensors = Sensor.reset_sensors h.reset_at s.sensors;
    minute = minute_of h.now;
  })

  Leads-end_minute :
      (h : Heard) (hs : List Heard) (s : Polled S D)
      → Lasts hs
      → Leads (resets s.minute h ++ history (minute_of h.now) hs) s.sensors (
          proceed
            (end_minute today azi readers field_id outlets (heard h) s)
            (poll today azi readers field_id outlets (map heard hs)))
  unfolding end_minute
  Leads-end_minute h hs s later = elim (Bool-cases (s.minute == minute_of h.now)) [
    | inl e ↦ let same : minute_of h.now ≡ s.minute = ground (arith, e) in rw (e, same) (later s)
    | inr e ↦ rw e (
        Leads-saved h hs s
          (send_outlets outlets (minute_key h.now) (Sensor.send_outlet field_id s.sensors) s.world)
          later)
  ]

  Leads-first :
      (h : Heard) (es es' : List Event) (m m' : Sensors D) (x x' : Attempt (Polled S D))
      → m' ≡ run today azi readers (packet_of h ∷ []) m
      → es' ≡ es
      → x ≡ x'
      → Leads es' m' x'
      → Leads (packet_of h ∷ es) m x
  unfolding run
  Leads-first h es es' m m' x x' held events same led =
      subst (Leads (packet_of h ∷ es) m) (sym same) (
        subst (λ l. Leads l (after today azi readers (packet_of h) m) x') events
          (subst (λ k. Leads es' k x') held led))

  poll-Lasts : (hs : List Heard) → Lasts hs
  unfolding poll run
  poll-Lasts [] s = refl
  poll-Lasts (h ∷ hs) s =
      let (s', round, held, _, kept_minute) =
        round-heard today azi readers field_id outlets s.sensors [] h s refl in
      let events = λ (m : ℕ). resets m h ++ history (minute_of h.now) hs in
      Leads-first h (events s.minute) (events s'.minute) s.sensors s'.sensors
        (proceed (poll_packet today azi readers field_id outlets (heard h) s)
          (poll today azi readers field_id outlets (map heard hs)))
        (proceed (end_minute today azi readers field_id outlets (heard h) s')
          (poll today azi readers field_id outlets (map heard hs)))
        held (ap events kept_minute)
        (ap (λ x. proceed x (poll today azi readers field_id outlets (map heard hs))) round)
        (Leads-end_minute h hs s' (poll-Lasts hs))

  -- Where each sensor stands under its name, the channel answers and the outlets do not throw: after the loop each
  -- recorder is what the readings of its own reader in the packets make of it, with a reset behind each packet
  -- that comes in another minute than that before it, and no recorder comes or goes.
  pub recorder_of-poll :
      (hs : List Heard) (s t : Polled S D) (n f : String)
      → IsNamed s.sensors
      → poll today azi readers field_id outlets (map heard hs) s ≡ (ok tt, t)
      → recorder_of t.sensors n f
        ≡ on
            (life today azi readers (history s.minute hs) (reader_name n f))
            (recorder_of s.sensors n f)
  recorder_of-poll hs s t n f named e =
      ap (λ m. recorder_of m n f)
        (Leads-ok (history s.minute hs) s.sensors t
          (poll today azi readers field_id outlets (map heard hs) s) (poll-Lasts hs s) e)
      ∙ recorder_of-run today azi readers (history s.minute hs) s.sensors n f named
