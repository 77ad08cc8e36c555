-- ===== src/Sensor/Laws.antt =====
-- The recorders of lib/Station.cc and lib/SensorStation.cc over the packets and minutes of a run.
use meteo.Base.{
  ℕ, ◌≡◌, refl, ap, ◌∙◌, List, [], ◌∷◌, Option, none, some, Option-cases, Result, ok, err,
  reader_not_found, String, All, inl, inr, Bool-cases, sym,
}
use mathlib.Core.Path.{fun_ext}
use meteo.Base.Text.{str_eq, str_eq_iff}
use meteo.Base.Dict.{find, on, find-each}
use meteo.Base.Int.{ℤ}
use meteo.Base.Double.{Double}
use meteo.Time.Timeval.{Timeval}
use meteo.Vector.{Libm}
use meteo.Recorder.Factory
use meteo.Recorder.Factory.{Recorder}
use meteo.Value.Quantity.{Quantity}
use meteo.Reader.Values
use meteo.Station.{Managed, Readers, find_reader}
use meteo.Sensor.{
  Sensors, SensorStation, Recorders, MapData, Clock, reset_sensors, update, update_sensors,
  update_fields, update_field, field_updated, reset_recorders, reader_name, read_value,
}

-- What happens to a station: a packet comes in, or the recorders are reset for the next minute.
pub data Event : Type 0 where
  packet : List ℕ → Clock → Event
  minute : Timeval → Event

module _ {D : Type 0} where
  abbrev pub fields_of : Option (SensorStation D) → String → Option (Recorder D)
  fields_of none f = none
  fields_of (some s) f = find s.recorders f

  -- The recorder of a sensor's field.
  abbrev pub recorder_of : Sensors D → String → String → Option (Recorder D)
  recorder_of m s f = fields_of (find m s) f

  -- Each sensor stands under its name.
  abbrev pub IsNamed : Sensors D → Type 0
  IsNamed m = All (λ e. e.1.name ≡ e.0) m

  pub on-on :
      (g h : Recorder D → Recorder D) (o : Option (Recorder D))
      → on g (on h o) ≡ on (λ r. g (h r)) o
  on-on g h none = refl
  on-on g h (some r) = refl

module _ {D : Type 0} ⦃d : Double D⦄ ⦃c : Libm D⦄ (today : ℕ → ℕ → ℤ) (azi : D)
    (readers : Readers D) where
  unfoldable pub after : Event → Sensors D → Sensors D
  unfolding update Factory.reset
  after (packet bytes clock) m = (update (read_value today azi readers bytes) clock m).0
  after (minute now) m = reset_sensors now m

  unfoldable pub run : List Event → Sensors D → Sensors D
  unfolding after
  run [] m = m
  run (e ∷ es) m = run es (after e m)

  -- What a reader makes of a packet, where there is one.
  abbrev pub reading_of : Option (Managed D) → List ℕ → Result (Quantity D)
  reading_of none bytes = err reader_not_found
  reading_of (some r) bytes = Values.v today azi r.kind r.cal r.classname r.unit bytes

  abbrev pub recorded : Recorder D → Result (Recorder D) → Recorder D
  recorded r (err _) = r
  recorded r (ok r') = r'

  -- What a reading makes of a recorder: one that throws leaves it as it is, and so does a recorder that refuses it.
  unfoldable pub taken : Timeval × Timeval → Result (Quantity D) → Recorder D → Recorder D
  unfolding Factory.update
  taken t (err _) r = r
  taken (s, now) (ok q) r = recorded r (Factory.update s now q r)

  -- What the same events do to one recorder, by the reader that has its name.
  unfoldable pub life : List Event → String → Recorder D → Recorder D
  unfolding Factory.reset taken
  life [] reader r = r
  life (packet bytes clock ∷ es) reader r =
      life es reader (taken (clock reader) (reading_of (find_reader readers reader) bytes) r)
  life (minute now ∷ es) reader r = life es reader (Factory.reset now r)

  recorded-field_updated :
      (n : String) (q : Quantity D) (r : Recorder D) (x : Result (Recorder D))
      (data_map : MapData D)
      → (field_updated n q r x data_map).0 ≡ recorded r x
  unfolding field_updated
  recorded-field_updated n q r (err _) data_map = refl
  recorded-field_updated n q r (ok r') data_map = refl

  taken-update_field :
      (t : Timeval × Timeval) (n : String) (r : Recorder D) (x : Result (Quantity D))
      (data_map : MapData D)
      → (update_field t n r x data_map).0 ≡ taken t x r
  unfolding update_field taken
  taken-update_field t n r (err _) data_map = refl
  taken-update_field (s, now) n r (ok q) data_map =
      recorded-field_updated n q r (Factory.update s now q r) data_map

  reading_of-read_value :
      (bytes : List ℕ) (n : String)
      → read_value today azi readers bytes n ≡ reading_of (find_reader readers n) bytes
  unfolding read_value
  reading_of-read_value bytes n = elim (Option-cases (find_reader readers n)) [
    | inl e ↦ rw e refl
    | inr (r, e) ↦ rw e refl
  ]

  find-update_fields :
      (bytes : List ℕ) (clock : Clock) (sensor : String) (m : Recorders D) (data_map : MapData D)
      (f : String)
      → find (update_fields (read_value today azi readers bytes) clock sensor m data_map).0 f
        ≡ on
            (taken
              (clock (reader_name sensor f))
              (reading_of (find_reader readers (reader_name sensor f)) bytes))
            (find m f)
  find-update_fields bytes clock sensor [] data_map f = refl
  find-update_fields bytes clock sensor ((k, r) ∷ m) data_map f =
      let reader = reader_name sensor k in
      let first =
        update_field (clock reader) reader r (read_value today azi readers bytes reader) data_map in
      elim (Bool-cases (str_eq f k)) [
        | inl here ↦
            let updated =
              taken-update_field (clock reader) reader r (read_value today azi readers bytes reader)
                data_map
              ∙ ap (λ x. taken (clock reader) x r) (reading_of-read_value bytes reader) in
            rw (here, (str_eq_iff f k).0 here) (ap some updated)
        | inr other ↦ rw other (find-update_fields bytes clock sensor m first.1 f)
      ]

  fields-update_sensors :
      (bytes : List ℕ) (clock : Clock) (m : Sensors D) (data_map : MapData D) (n f : String)
      → IsNamed m
      → fields_of
          (find (update_sensors (read_value today azi readers bytes) clock m data_map).0 n)
          f
        ≡ on
            (taken
              (clock (reader_name n f))
              (reading_of (find_reader readers (reader_name n f)) bytes))
            (fields_of (find m n) f)
  fields-update_sensors bytes clock [] data_map n f named = refl
  fields-update_sensors bytes clock ((k, s) ∷ m) data_map n f (p, named) =
      let read = read_value today azi readers bytes in
      let first = update_fields read clock s.name s.recorders data_map in
      elim (Bool-cases (str_eq n k)) [
        | inl here ↦
            let same : s.name ≡ n = p ∙ sym ((str_eq_iff n k).0 here) in
            rw here (
              find-update_fields bytes clock s.name s.recorders data_map f
              ∙ ap
                  (λ sensor.
                    on
                      (taken (clock (reader_name sensor f))
                        (reading_of (find_reader readers (reader_name sensor f)) bytes))
                      (find s.recorders f))
                  same)
        | inr other ↦ rw other (fields-update_sensors bytes clock m first.1 n f named)
      ]

  update_sensors-IsNamed :
      (read : String → Result (Quantity D)) (clock : Clock) (m : Sensors D) (data_map : MapData D)
      → IsNamed m
      → IsNamed (update_sensors read clock m data_map).0
  update_sensors-IsNamed read clock [] data_map named = tt
  update_sensors-IsNamed read clock ((k, s) ∷ m) data_map (p, named) = (
    p,
    update_sensors-IsNamed read clock m (update_fields read clock s.name s.recorders data_map).1
        named,
  )

  reset_sensors-IsNamed :
      (now : Timeval) (m : Sensors D) → IsNamed m → IsNamed (reset_sensors now m)
  reset_sensors-IsNamed now [] named = tt
  reset_sensors-IsNamed now (s ∷ m) (p, named) = (p, reset_sensors-IsNamed now m named)

  after-IsNamed : (e : Event) (m : Sensors D) → IsNamed m → IsNamed (after e m)
  unfolding after
  after-IsNamed (packet bytes clock) m named =
      update_sensors-IsNamed (read_value today azi readers bytes) clock m [] named
  after-IsNamed (minute now) m named = reset_sensors-IsNamed now m named

  fields-minute :
      (now : Timeval) (o : Option (SensorStation D)) (f : String)
      → fields_of (on (λ s. record s { recorders = reset_recorders now s.recorders }) o) f
        ≡ on (Factory.reset now) (fields_of o f)
  unfolding reset_recorders
  fields-minute now none f = refl
  fields-minute now (some s) f = find-each (λ _ r. Factory.reset now r) s.recorders f

  recorder_of-after :
      (e : Event) (m : Sensors D) (n f : String)
      → IsNamed m
      → recorder_of (after e m) n f
        ≡ on (λ r. life (e ∷ []) (reader_name n f) r) (recorder_of m n f)
  unfolding after life
  recorder_of-after (packet bytes clock) m n f named =
      fields-update_sensors bytes clock m [] n f named
  recorder_of-after (minute now) m n f named =
      ap (λ o. fields_of o f)
        (find-each (λ _ s. record s { recorders = reset_recorders now s.recorders }) m n)
      ∙ fields-minute now (find m n) f

  life_first :
      (e : Event) (es : List Event) (reader : String) (r : Recorder D)
      → life es reader (life (e ∷ []) reader r) ≡ life (e ∷ es) reader r
  unfolding life
  life_first (packet bytes clock) es reader r = refl
  life_first (minute now) es reader r = refl

  on-life : (reader : String) (o : Option (Recorder D)) → on (life [] reader) o ≡ o
  unfolding life
  on-life reader none = refl
  on-life reader (some r) = refl

  -- Where each sensor stands under its name: over any packets and resets, each recorder is what the values that the
  -- reader of its sensor's and its own name has for the packets, and the resets, make of it, one after the other; a
  -- packet for which there is no reader or no value, or which the recorder refuses, leaves it as it is; the other
  -- fields and sensors make no difference, and no recorder comes or goes.
  pub recorder_of-run :
      (es : List Event) (m : Sensors D) (n f : String)
      → IsNamed m
      → recorder_of (run es m) n f ≡ on (life es (reader_name n f)) (recorder_of m n f)
  unfolding run
  recorder_of-run [] m n f named = sym (on-life (reader_name n f) (recorder_of m n f))
  recorder_of-run (e ∷ es) m n f named =
      recorder_of-run es (after e m) n f (after-IsNamed e m named)
      ∙ ap (on (life es (reader_name n f))) (recorder_of-after e m n f named)
      ∙ on-on (life es (reader_name n f)) (life (e ∷ []) (reader_name n f)) (recorder_of m n f)
      ∙ ap (λ g. on g (recorder_of m n f)) (fun_ext (life_first e es (reader_name n f)))
