-- ===== src/Recorder/Factory.antt =====
-- lib/Recorder.cc, include/Recorder.h and lib/RecorderFactory.cc: a recorder of one of the classes, and the
-- virtual functions as functions by clauses on the class. The two calls of `now()` in an update are the
-- two times of `clock`.
use meteo.Base.{
  ℕ, true, false, List, Result, ok, err, ◌>>=◌, if◌then◌else◌, String, wrong_class, unknown_class,
}
use meteo.Base.Text.{str_eq}
use meteo.Base.Int.{pos, negsuc}
use meteo.Base.Double.{Double}
use meteo.Time.Timeval.{Timeval, of_seconds}
use meteo.Vector.{Libm}
use meteo.Value.Quantity.{Quantity, convert_quantity, get_vector_value}
use meteo.Recorder.Basic
use meteo.Recorder.Basic.{Basic, Row}
use meteo.Recorder.Minmax
use meteo.Recorder.Minmax.{Minmax}
use meteo.Recorder.Rain
use meteo.Recorder.Rain.{Rain}
use meteo.Recorder.Wind
use meteo.Recorder.Wind.{Wind, origin}

-- The BasicRecorder by its class: VoltageRecorder, TimeRecorder (a LastRecorder), TransmitterRecorder, the
-- classes that derive from MinmaxRecorder, RainRecorder and WindRecorder.
pub data Body (D : Type 0) : Type 0 where
  basic last transmitter : Basic D → Body D
  minmax : Minmax D → Body D
  rain : Rain D → Body D
  wind : Wind D → Body D

-- `classname` is that of the Recorder, and `unit` that of the `conv` of its BasicRecorder.
pub record Recorder (D : Type 0) : Type 0 where
  pub id : ℕ
  pub classname : String
  pub unit : String
  pub body : Body D

module _ {D : Type 0} ⦃d : Double D⦄ where
  -- BasicRecorder(const std::string&)
  abbrev pub fresh : Timeval → Basic D
  fresh now = record {
    isvalid = false;
    start = now;
    lastupdate = of_seconds (pos 0);
    value = d.lit (pos 0) 0;
  }

  -- MinmaxRecorder(const std::string&)
  abbrev pub fresh_minmax : Timeval → Minmax D
  fresh_minmax now = record {
    basic = fresh now;
    max = d.lit (negsuc 999999) 0;
    min = d.lit (pos 1000000) 0;
    storeminmax = false;
  }

  -- RainRecorder(const std::string&), which does not set `startvalue`: `left` stands for what is there.
  abbrev pub fresh_rain : D → Timeval → Rain D
  fresh_rain left now = record { basic = fresh now; startvalue = left }

  -- WindRecorder(const std::string&)
  abbrev pub fresh_wind : Timeval → Wind D
  fresh_wind now = record { basic = fresh now; v = origin; max = origin; samples = 0 }

  -- RecorderFactory::getRecorder: the BasicRecorder for a class
  abbrev pub new_body : D → Timeval → String → Result (Body D)
  new_body left now classname =
      if str_eq classname "TemperatureValue"
      then ok (minmax (fresh_minmax now))
      else if str_eq classname "HumidityValue"
      then ok (minmax (fresh_minmax now))
      else if str_eq classname "PressureValue"
      then ok (minmax (fresh_minmax now))
      else if str_eq classname "SolarValue"
      then ok (minmax (fresh_minmax now))
      else if str_eq classname "UVValue"
      then ok (minmax (fresh_minmax now))
      else if str_eq classname "MoistureValue"
      then ok (minmax (fresh_minmax now))
      else if str_eq classname "LeafwetnessValue"
      then ok (minmax (fresh_minmax now))
      else if str_eq classname "Rain"
      then ok (rain (fresh_rain left now))
      else if str_eq classname "RainRate"
      then ok (minmax (fresh_minmax now))
      else if str_eq classname "Wind"
      then ok (wind (fresh_wind now))
      else if str_eq classname "VoltageValue"
      then ok (basic (fresh now))
      else if str_eq classname "TransmitterStatus"
      then ok (transmitter (fresh now))
      else if str_eq classname "TimeValue"
      then ok (last (fresh now))
      else err unknown_class

  -- RecorderFactory::getRecorder; `field_class`, `field_unit` and `field_id` are those of `Field`, which
  -- asks the database.
  unfoldable pub get_recorder :
      (String → Result String)
      → (String → Result String)
      → (String → Result ℕ)
      → D
      → Timeval
      → String
      → Result (Recorder D)
  get_recorder field_class field_unit field_id left now mfieldname =
      field_class mfieldname >>= λ classname. field_unit mfieldname >>= λ unit.
      new_body left now classname >>= λ br. field_id mfieldname >>= λ id.
      ok record { id = id; classname = classname; unit = unit; body = br }

  -- The virtual function `reset`
  unfoldable pub reset_body : Timeval → Body D → Body D
  unfolding Basic.reset Rain.reset Wind.reset
  reset_body now (basic r) = basic (Basic.reset now r)
  reset_body now (last r) = last (Basic.reset now r)
  reset_body now (transmitter r) = transmitter (Basic.reset now r)
  reset_body now (minmax r) = minmax (Minmax.reset now r)
  reset_body now (rain r) = rain (Rain.reset r)
  reset_body now (wind r) = wind (Wind.reset now r)

  unfoldable pub reset : Timeval → Recorder D → Recorder D
  unfolding reset_body
  reset now r = record r { body = reset_body now r.body }

  abbrev pub basic_of : Body D → Basic D
  basic_of (basic r) = r
  basic_of (last r) = r
  basic_of (transmitter r) = r
  basic_of (minmax r) = r.basic
  basic_of (rain r) = r.basic
  basic_of (wind r) = r.basic

  -- Recorder::getValue. BasicRecorder::getValue is not virtual, so the getValue of a RainRecorder or of
  -- a WindRecorder is not called.
  unfoldable pub value_of : Recorder D → Result D
  unfolding Basic.value_of
  value_of r = Basic.value_of (basic_of r.body)

  module _ ⦃c : Libm D⦄ where
    -- `update(double)`; a WindRecorder and a TransmitterRecorder do not come to it.
    unfoldable pub update_double : Timeval → Timeval → D → Body D → Body D
    unfolding Basic.update Basic.set_value Rain.update
    update_double s now x (basic r) = basic (Basic.update s now x r)
    update_double s now x (last r) = last (Basic.set_value s now x r)
    update_double s now x (transmitter r) = transmitter r
    update_double s now x (minmax r) = minmax (Minmax.update s now x r)
    update_double s now x (rain r) = rain (Rain.update now x r)
    update_double s now x (wind r) = wind r

    -- BasicRecorder::update(const Value&), TransmitterRecorder::update and WindRecorder::update
    unfoldable pub update_body : Timeval → Timeval → String → Quantity D → Body D → Result (Body D)
    unfolding convert_quantity get_vector_value Wind.update update_double
    update_body s now unit q (transmitter r) =
        ok (transmitter record r { value = q.value; isvalid = true; lastupdate = now })
    update_body s now unit q (wind r) =
        let w =
          convert_quantity unit q >>= λ w2. ok (wind (Wind.update s now (get_vector_value w2) r)) in
        if str_eq q.classname "Wind" then w else err wrong_class
    update_body s now unit q b = convert_quantity unit q >>= λ v. ok (update_double s now v.value b)

    -- Recorder::update. Where it passes its test for the class, that of BasicRecorder::update holds too,
    -- since the factory gives each class a BasicRecorder of the same value class.
    unfoldable pub update : Timeval → Timeval → Quantity D → Recorder D → Result (Recorder D)
    unfolding update_body
    update s now q r =
        let updated = update_body s now r.unit q r.body >>= λ b. ok record r { body = b } in
        if str_eq q.classname r.classname then updated else err wrong_class

    -- The virtual function `sendOutlet`
    unfoldable pub send_body : (String → ℕ) → ℕ → Body D → List (Row D)
    unfolding Basic.send_outlet Rain.send_outlet Wind.send_outlet
    send_body field_id id (basic r) = Basic.send_outlet id r
    send_body field_id id (last r) = Basic.send_outlet id r
    send_body field_id id (transmitter r) = Basic.send_outlet id r
    send_body field_id id (minmax r) = Minmax.send_outlet id r
    send_body field_id id (rain r) = Rain.send_outlet id r
    send_body field_id id (wind r) = Wind.send_outlet field_id id r

    unfoldable pub send_outlet : (String → ℕ) → Recorder D → List (Row D)
    unfolding send_body
    send_outlet field_id r = send_body field_id r.id r.body
