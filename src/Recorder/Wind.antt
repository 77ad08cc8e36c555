-- ===== src/Recorder/Wind.antt =====
-- lib/WindRecorder.cc and include/WindRecorder.h: the wind as a vector averaged over time, with the
-- strongest reading. A call of `now()` is a time handed in.
pub mod Laws
use meteo.Base.{
  ℕ, ◌+◌, Bool, true, false, Result, ok, err, ◌>>=◌, no_value, if◌then◌else◌, List, [], ◌∷◌, String,
}
use meteo.Base.Int.{pos}
use meteo.Base.Double.{Double}
use meteo.Time.Timeval.{Timeval, get_value, minus}
use meteo.Recorder.Basic.{Basic, Row}
use meteo.Recorder.Basic
use meteo.Vector.{Vector, Libm, plus, times, get_abs, get_azideg}

pub record Wind (D : Type 0) : Type 0 where
  pub basic : Basic D
  pub v : Vector D
  pub max : Vector D
  pub samples : ℕ

module _ {D : Type 0} ⦃d : Double D⦄ where
  abbrev pub origin : Vector D
  origin = record { x = d.lit (pos 0) 0; y = d.lit (pos 0) 0 }

  -- WindRecorder::reset
  unfoldable pub reset : Timeval → Wind D → Wind D
  unfolding Basic.reset
  reset now w = record { basic = Basic.reset now w.basic; v = origin; max = origin; samples = 0 }

  abbrev pub duration : Wind D → D
  duration w = get_value {D = D} (minus D w.basic.lastupdate w.basic.start)

  -- WindRecorder::getDuration
  abbrev pub get_duration : Wind D → Result D
  get_duration w = if w.basic.isvalid then ok (duration w) else err no_value

module _ {D : Type 0} ⦃d : Double D⦄ ⦃c : Libm D⦄ where
  -- The average of the wind so far and the new vector, by the times that they stand for.
  abbrev pub average : D → D → Vector D → Vector D → Vector D
  average t1 t2 v v0 =
      let all = d.add t1 t2 in
      if d.lt (d.lit (pos 1) 1) all
      then times (d.div (d.lit (pos 1) 0) all) (plus (times t1 v) (times t2 v0))
      else v0

  -- WindRecorder::update(const Vector&); `n` is the time of the average, `now` that of the update.
  unfoldable pub update : Timeval → Timeval → Vector D → Wind D → Wind D
  update n now v0 w =
      let t2 = get_value {D = D} (minus D n w.basic.lastupdate) in
      if w.basic.isvalid
      then record {
        basic = record w.basic { lastupdate = now };
        v = average (duration w) t2 w.v v0;
        max = if d.lt (get_abs w.max) (get_abs v0) then v0 else w.max;
        samples = w.samples + 1;
      }
      else record w {
        basic = record w.basic { lastupdate = now; isvalid = true };
        v = v0;
        max = v0;
      }

  -- WindRecorder::sendOutlet; `field_id` is `Field().getId`.
  unfoldable pub send_outlet : (String → ℕ) → ℕ → Wind D → List (Row D)
  unfolding get_azideg
  send_outlet field_id fieldid w =
      let row : ℕ → D → Row D = λ i a. record { fieldid = i; amount = a } in
      if w.basic.isvalid
      then row fieldid (get_abs w.v)
        ∷ row (fieldid + 1) (get_azideg w.v)
        ∷ row (fieldid + 2) (get_abs w.max)
        ∷ row (fieldid + 3) (d.mul (duration w) w.v.x)
        ∷ row (fieldid + 4) (d.mul (duration w) w.v.y)
        ∷ row (field_id "duration") (duration w)
        ∷ row (field_id "samples") (d.of_int (pos w.samples))
        ∷ []
      else []
