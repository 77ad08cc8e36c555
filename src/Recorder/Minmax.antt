-- ===== src/Recorder/Minmax.antt =====
-- lib/MinmaxRecorder.cc and include/MinmaxRecorder.h: the average with the extremes.
pub mod Laws
use meteo.Base.{
  ℕ, ◌+◌, Bool, true, false, Result, ok, err, no_value, if◌then◌else◌, List, [], ◌∷◌, ◌++◌,
}
use meteo.Base.Int.{ℤ, pos, negsuc}
use meteo.Base.Double.{Double}
use meteo.Time.Timeval.{Timeval}
use meteo.Recorder.Basic.{Basic, Row}
use meteo.Recorder.Basic

pub record Minmax (D : Type 0) : Type 0 where
  pub basic : Basic D
  pub max : D
  pub min : D
  pub storeminmax : Bool

module _ {D : Type 0} ⦃d : Double D⦄ where
  -- MinmaxRecorder::reset
  pub reset : Timeval → Minmax D → Minmax D
  unfolding Basic.reset
  reset now r = record r {
    basic = Basic.reset now r.basic;
    max = d.lit (negsuc 999999) 0;
    min = d.lit (pos 1000000) 0;
  }

  -- MinmaxRecorder::update(double)
  pub update : Timeval → Timeval → D → Minmax D → Minmax D
  update s now v r =
      let updated = Basic.update s now v r.basic in
      if r.basic.isvalid
      then record r {
        basic = updated;
        max = if d.lt r.max v then v else r.max;
        min = if d.lt v r.min then v else r.min;
      }
      else record r { basic = updated; max = v; min = v }

  -- MinmaxRecorder::setValue
  unfoldable pub set_value : Timeval → Timeval → D → Minmax D → Minmax D
  set_value s now v r = record r { basic = Basic.set_value s now v r.basic; max = v; min = v }

  -- MinmaxRecorder::getMax and MinmaxRecorder::getMin
  unfoldable pub get_max : Minmax D → Result D
  get_max r = if r.basic.isvalid then ok r.basic.value else err no_value

  unfoldable pub get_min : Minmax D → Result D
  get_min r = if r.basic.isvalid then ok r.min else err no_value

  -- MinmaxRecorder::sendOutlet
  pub send_outlet : ℕ → Minmax D → List (Row D)
  unfolding Basic.send_outlet
  send_outlet fieldid r =
      if r.basic.isvalid
      then Basic.send_outlet fieldid r.basic
        ++ (if r.storeminmax
            then record { fieldid = fieldid + 1; amount = r.min }
              ∷ record { fieldid = fieldid + 2; amount = r.max }
              ∷ []
            else [])
      else []
