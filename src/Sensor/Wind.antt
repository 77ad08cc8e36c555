-- ===== src/Sensor/Wind.antt =====
-- What lib/SensorStation.cc hands to the map file for a wind recorder.
use meteo.Base.{
  ℕ, ◌≡◌, refl, ap, ◌∙◌, ◌⊎◌, inl, inr, some, Bool, true, false, List, [], ◌∷◌, Result, ok, err,
  String, if◌then◌else◌, Bool-cases, no_value, wrong_class, ◌>>=◌,
}
use meteo.Base.Text.{str_eq}
use meteo.Base.Int.{ℤ, pos}
use meteo.Base.Double.{Double}
use meteo.Time.Timeval.{Timeval}
use meteo.Vector.{Libm, Vector}
use meteo.Value.Quantity.{Quantity, convert_quantity, get_vector_value}
use meteo.Recorder.Basic
use meteo.Recorder.Wind
use meteo.Recorder.Wind.{Wind}
use meteo.Recorder.Factory
use meteo.Recorder.Factory.{Recorder, Body, value_of, update_body}
use meteo.Station.{Readers, find_reader}
use meteo.Base.Dict.{on}
use meteo.Sensor.{Sensors, reader_name}
use meteo.Sensor.Laws.{
  Event, packet, minute, life, reading_of, recorded, taken, IsNamed, recorder_of, run,
  recorder_of-run,
}

module _ {D : Type 0} ⦃d : Double D⦄ where
  -- The Recorder of a wind field.
  abbrev pub wind_recorder : ℕ → String → String → Wind D → Recorder D
  wind_recorder id classname unit w = record {
    id = id;
    classname = classname;
    unit = unit;
    body = Body.wind w;
  }

  -- The recorder is that of a wind field, with 0 as the member `value`.
  abbrev pub IsCalm : ℕ → String → String → Recorder D → Type 0
  IsCalm id classname unit r =
      (w : Wind D) × (r ≡ wind_recorder id classname unit w) × (w.basic.value ≡ d.lit (pos 0) 0)

  module _ ⦃c : Libm D⦄ where
    update_value :
        (s now : Timeval) (v : Vector D) (w : Wind D)
        → (Wind.update s now v w).basic.value ≡ w.basic.value
    unfolding Wind.update
    update_value s now v w = elim (Bool-cases w.basic.isvalid) [
      | inl e ↦ rw e refl
      | inr e ↦ rw e refl
    ]

    -- An update by its two tests and the converted value.
    abbrev updated :
        ℕ
        → String
        → String
        → Bool
        → Bool
        → Timeval × Timeval
        → Result (Quantity D)
        → Wind D
        → Result (Recorder D)
    updated id classname unit same is_wind (s, now) q w =
        let r = wind_recorder id classname unit w in
        let made = q >>= λ w2. ok (Body.wind (Wind.update s now (get_vector_value w2) w)) in
        let next = (if is_wind then made else err wrong_class) >>= λ b. ok record r { body = b } in
        if same then next else err wrong_class

    updated-IsCalm :
        (today : ℕ → ℕ → ℤ) (azi : D) (readers : Readers D) (t : Timeval × Timeval) (id : ℕ)
        (classname unit : String) (same is_wind : Bool) (q : Result (Quantity D)) (w : Wind D)
        → w.basic.value ≡ d.lit (pos 0) 0
        → IsCalm id classname unit (
            recorded today azi readers
              (wind_recorder id classname unit w)
              (updated id classname unit same is_wind t q w))
    updated-IsCalm today azi readers t id classname unit false is_wind q w e = (w, refl, e)
    updated-IsCalm today azi readers t id classname unit true false q w e = (w, refl, e)
    updated-IsCalm today azi readers (s, now) id classname unit true true (ok q) w e = (
      Wind.update s now (get_vector_value q) w,
      refl,
      update_value s now (get_vector_value q) w ∙ e,
    )
    updated-IsCalm today azi readers t id classname unit true true (err _) w e = (w, refl, e)

    taken-IsCalm :
        (today : ℕ → ℕ → ℤ) (azi : D) (readers : Readers D) (t : Timeval × Timeval) (id : ℕ)
        (classname unit : String) (q : Result (Quantity D)) (w : Wind D)
        → w.basic.value ≡ d.lit (pos 0) 0
        → IsCalm id classname unit (taken today azi readers t q (wind_recorder id classname unit w))
    unfolding taken Factory.update update_body
    taken-IsCalm today azi readers t id classname unit (err _) w e = (w, refl, e)
    taken-IsCalm today azi readers t id classname unit (ok q) w e =
        updated-IsCalm today azi readers t id classname unit (str_eq q.classname classname)
          (str_eq q.classname "Wind") (convert_quantity unit q) w e

    published_calm :
        (w : Wind D)
        → w.basic.value ≡ d.lit (pos 0) 0
        → (id : ℕ) (classname unit : String)
        → (value_of (wind_recorder id classname unit w) ≡ err no_value)
          ⊎ (value_of (wind_recorder id classname unit w) ≡ ok (d.lit (pos 0) 0))
    unfolding value_of Basic.value_of
    published_calm w e id classname unit = elim (Bool-cases w.basic.isvalid) [
      | inl valid ↦ inr (rw valid (ap ok e))
      | inr invalid ↦ inl (rw invalid refl)
    ]

    value_of-life_wind :
        (today : ℕ → ℕ → ℤ) (azi : D) (readers : Readers D) (es : List Event) (reader : String)
        (id : ℕ) (classname unit : String) (w : Wind D)
        → w.basic.value ≡ d.lit (pos 0) 0
        → (value_of (life today azi readers es reader (wind_recorder id classname unit w))
            ≡ err no_value)
          ⊎ (value_of (life today azi readers es reader (wind_recorder id classname unit w))
              ≡ ok (d.lit (pos 0) 0))
    unfolding life Factory.reset Wind.reset Basic.reset
    value_of-life_wind today azi readers [] reader id classname unit w e =
        published_calm w e id classname unit
    value_of-life_wind today azi readers (packet bytes clock ∷ es) reader id classname unit w e =
        let (next, same, calm) =
          taken-IsCalm today azi readers (clock reader) id classname unit
            (reading_of today azi readers (find_reader readers reader) bytes) w e in
        rw same (value_of-life_wind today azi readers es reader id classname unit next calm)
    value_of-life_wind today azi readers (minute now ∷ es) reader id classname unit w e =
        value_of-life_wind today azi readers es reader id classname unit (Wind.reset now w) refl

    -- In a station whose sensors stand under their names, with a wind field whose member `value` is 0, as in a new
    -- recorder: after any packets and resets the field has a recorder, and its value, as the map file asks for it, is
    -- an exception or 0.
    pub value_of-run_wind :
        (today : ℕ → ℕ → ℤ) (azi : D) (readers : Readers D) (es : List Event) (m : Sensors D)
        (n f : String) (id : ℕ) (classname unit : String) (w : Wind D)
        → IsNamed m
        → recorder_of m n f ≡ some (wind_recorder id classname unit w)
        → w.basic.value ≡ d.lit (pos 0) 0
        → (r : Recorder D) × (recorder_of (run today azi readers es m) n f ≡ some r)
          × ((value_of r ≡ err no_value) ⊎ (value_of r ≡ ok (d.lit (pos 0) 0)))
    value_of-run_wind today azi readers es m n f id classname unit w named here calm =
        let reader = reader_name n f in
        (
          life today azi readers es reader (wind_recorder id classname unit w),
          recorder_of-run today azi readers es m n f named
              ∙ ap (on (life today azi readers es reader)) here,
          value_of-life_wind today azi readers es reader id classname unit w calm,
        )
