-- ===== src/Recorder/Basic.antt =====
-- lib/BasicRecorder.cc, lib/LastRecorder.cc and include/BasicRecorder.h: the time-weighted average of
-- the readings. A call of `now()` is a time handed in.
use meteo.Base.{ℕ, Bool, true, false, Result, ok, err, no_value, if◌then◌else◌, List, [], ◌∷◌}
use meteo.Base.Int.{pos}
use meteo.Base.Double.{Double}
use meteo.Time.Timeval.{Timeval, get_value, minus}

pub record Basic (D : Type 0) : Type 0 where
  pub isvalid : Bool
  pub start : Timeval
  pub lastupdate : Timeval
  pub value : D

-- One row for the averaging: `Outlet::send` without the sensor's id and the unit.
pub record Row (D : Type 0) : Type 0 where
  pub fieldid : ℕ
  pub amount : D

module _ {D : Type 0} ⦃d : Double D⦄ where
  -- BasicRecorder::reset
  unfoldable pub reset : Timeval → Basic D → Basic D
  reset now r = record r { isvalid = false; value = d.lit (pos 0) 0; start = now }

  -- BasicRecorder::update(double); `s` is the time of the average, `now` that of the update.
  unfoldable pub update : Timeval → Timeval → D → Basic D → Basic D
  update s now v r =
      let t1 = get_value {D = D} (minus D r.lastupdate r.start) in
      let t2 = get_value {D = D} (minus D s r.lastupdate) in
      if r.isvalid
      then record r {
        value = d.div (d.add (d.mul t1 r.value) (d.mul t2 v)) (d.add t1 t2);
        lastupdate = now;
      }
      else record r { value = v; lastupdate = now; isvalid = true }

  -- BasicRecorder::setValue, which is also LastRecorder::update
  unfoldable pub set_value : Timeval → Timeval → D → Basic D → Basic D
  set_value s now v r = record r { start = s; lastupdate = now; value = v; isvalid = true }

  -- BasicRecorder::getValue
  unfoldable pub value_of : Basic D → Result D
  value_of r = if r.isvalid then ok r.value else err no_value

  -- BasicRecorder::sendOutlet
  unfoldable pub send_outlet : ℕ → Basic D → List (Row D)
  send_outlet fieldid r = record { fieldid = fieldid; amount = r.value } ∷ []
