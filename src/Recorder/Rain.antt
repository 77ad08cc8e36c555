-- ===== src/Recorder/Rain.antt =====
-- lib/RainRecorder.cc and include/RainRecorder.h: the rain of the current interval, taken from a
-- counter that may wrap around.
pub mod Laws
use meteo.Base.{
  ℕ, ◌+◌, Bool, true, false, Result, ok, err, ◌>>=◌, no_value, zero_duration, if◌then◌else◌, List,
  [], ◌∷◌, ◌++◌,
}
use meteo.Base.Int.{pos}
use meteo.Base.Double.{Double}
use meteo.Time.Timeval.{Timeval, get_value, minus}
use meteo.Recorder.Basic.{Basic, Row}
use meteo.Recorder.Basic

pub record Rain (D : Type 0) : Type 0 where
  pub basic : Basic D
  pub startvalue : D

module _ {D : Type 0} ⦃d : Double D⦄ where
  -- RainRecorder::update: a fall of the counter is taken for a wrap around.
  unfoldable pub update : Timeval → D → Rain D → Rain D
  update now rain r =
      let start = if r.basic.isvalid then r.startvalue else rain in
      record {
        basic = record r.basic { value = rain; isvalid = true; lastupdate = now };
        startvalue = if d.lt rain r.basic.value then d.neg (d.sub r.basic.value start) else start;
      }

  -- RainRecorder::reset
  unfoldable pub reset : Rain D → Rain D
  reset r = record r { startvalue = if r.basic.isvalid then r.basic.value else d.lit (pos 0) 0 }

  -- RainRecorder::getValue, getTotal and getRate
  unfoldable pub value_of : Rain D → Result D
  value_of r = if r.basic.isvalid then ok (d.sub r.basic.value r.startvalue) else err no_value

  unfoldable pub total_of : Rain D → Result D
  total_of r = if r.basic.isvalid then ok r.basic.value else err no_value

  unfoldable pub rate_of : Rain D → Result D
  unfolding value_of
  rate_of r =
      let duration = get_value {D = D} (minus D r.basic.lastupdate r.basic.start) in
      if r.basic.isvalid
      then if d.eq duration (d.lit (pos 0) 0)
        then err zero_duration
        else (value_of r >>= λ v. ok (d.div v duration))
      else err no_value

  -- RainRecorder::setValue and setTotal
  unfoldable pub set_value : Timeval → Timeval → D → Rain D → Rain D
  set_value s now v r = record {
    basic = Basic.set_value s now v r.basic;
    startvalue = d.lit (pos 0) 0;
  }

  unfoldable pub set_total : D → Rain D → Rain D
  set_total v r = record {
    basic = record r.basic { value = v };
    startvalue = d.sub v (d.sub r.basic.value r.startvalue);
  }

  -- RainRecorder::sendOutlet
  unfoldable pub send_outlet : ℕ → Rain D → List (Row D)
  send_outlet fieldid r =
      let fallen = d.sub r.basic.value r.startvalue in
      if r.basic.isvalid
      then (if d.lt (d.lit (pos 0) 0) fallen
          then record { fieldid = fieldid; amount = fallen } ∷ []
          else [])
        ++ record { fieldid = fieldid + 1; amount = r.basic.value } ∷ []
      else []
