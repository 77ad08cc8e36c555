-- ===== src/Tests/Traces.antt =====
-- Runs of the operations on recorders, labels, scales and handles.
use meteo.Base.{
  ℕ, ◌+◌, ◌/◌, ◌%◌, ◌==◌, ◌≡◌, refl, true, [], ◌∷◌, none, some, Result, ok, err, ◌>>=◌, String,
  cannot_go_up, if◌then◌else◌, already_managed, unknown_class,
}
use meteo.Base.Text.{str_eq}
use meteo.Base.Int.{ℤ, pos, pos_part, ◌-ℤ◌, ◌+ℤ◌}
use meteo.Base.Double.{int_double}
use meteo.Vector.{Libm}
use meteo.Time.Timeval.{of_seconds, get_value, minus}
use meteo.Time.Level.{Level, get_duration}
use meteo.Time.Level
use meteo.Time.Label.{Tm, Timelabel, previous, next, upup, downdown}
use meteo.Value.Quantity.{Quantity}
use meteo.Recorder.Factory.{Recorder, Body, get_recorder}
use meteo.Reader.Handle.{manage, delegate}
use meteo.Value.{Store}
use meteo.Sensor.{
  Sensors, send_outlet, send_recorders, update_recorder, update, update_field, field_updated,
}
use meteo.Scale.{Source, of_config}

-- Integers stand in for doubles, and functions for those of the C library.
instance abbrev plain_libm : Libm ℤ
plain_libm = record { sqrt = λ x. x; sin = λ x. x; cos = λ x. x; atan2 = λ y x. pos 0 }

abbrev class_of : String → Result String
class_of f = if str_eq f "temperature" then ok "TemperatureValue" else ok "LevelValue"

abbrev unit_of : String → Result String
unit_of f = ok "C"

abbrev id_of : String → Result ℕ
id_of f = ok 5

-- The factory has no recorder for a level.
get_recorder_run :
    get_recorder class_of unit_of id_of (pos 0) (of_seconds (pos 0)) "lake" ≡ err unknown_class
unfolding get_recorder
get_recorder_run = refl

abbrev seen : Recorder ℤ
seen = record {
  id = 5;
  classname = "VoltageValue";
  unit = "V";
  body = Body.basic record {
    isvalid = true;
    start = of_seconds (pos 0);
    lastupdate = of_seconds (pos 10);
    value = pos 12;
  };
}

abbrev power : Sensors ℤ
power =
    ("battery", record { name = "battery"; sensorid = 4; recorders = ("voltage", seen) ∷ [] }) ∷ []

send_outlet_run : send_outlet (λ _. 0) power ≡ (4, record { fieldid = 5; amount = pos 12 }) ∷ []
unfolding send_outlet send_recorders
send_outlet_run = refl

abbrev reading : Quantity ℤ
reading = record { classname = "VoltageValue"; unit = "V"; value = pos 14; azi = pos 0 }

-- Ten seconds of 12 and ten of 14 make 13.
update_recorder_run :
    update_recorder
      (of_seconds (pos 20), of_seconds (pos 20))
      "voltage"
      reading
      (("voltage", seen) ∷ [])
    ≡ ok (
        (
          "voltage",
          record seen {
            body = Body.basic record {
              isvalid = true;
              start = of_seconds (pos 0);
              lastupdate = of_seconds (pos 20);
              value = pos 13;
            };
          },
        )
        ∷ [])
unfolding update_recorder ◌+ℤ◌ ◌-ℤ◌ get_value minus
update_recorder_run = refl

-- The map file gets the average, not the reading.
update_run :
    (update (λ _. ok reading) (λ _. (of_seconds (pos 20), of_seconds (pos 20))) power).1
    ≡ ("battery.voltage", (pos 13, "V")) ∷ []
unfolding update ◌+ℤ◌ ◌-ℤ◌ get_value minus update_field field_updated
update_run = refl

-- Noon of January 15th, 1970, in a year of 365 days from then on.
abbrev local : ℤ → Tm
local t =
    let u = pos_part t in
    record {
      tm_sec = u % 60;
      tm_min = u % 3600 / 60;
      tm_hour = u % 86400 / 3600;
      tm_mday = u / 86400 % 28 + 1;
      tm_wday = (u / 86400 + 4) % 7;
      tm_yday = u / 86400 % 365;
    }

abbrev mid_month : Timelabel
mid_month = record { midtime = pos 1252800; level = Level.month }

next_run : next local 2 mid_month ≡ some record { midtime = pos 3672000; level = Level.month }
unfolding next ◌+ℤ◌ ◌-ℤ◌ get_duration
next_run = refl

previous_run :
    previous local 2 record { midtime = pos 3672000; level = Level.month } ≡ some mid_month
unfolding previous ◌+ℤ◌ ◌-ℤ◌ get_duration
previous_run = refl

upup_run : upup local 2 mid_month ≡ err cannot_go_up
unfolding upup Level.up
upup_run = refl

downdown_run :
    downdown local 2 mid_month ≡ ok (some record { midtime = pos 1252800; level = Level.day })
unfolding downdown Level.down ◌+ℤ◌ ◌-ℤ◌
downdown_run = refl

abbrev attributes : String → ℤ → ℤ
attributes name other =
    if str_eq name "min" then pos 10 else if str_eq name "max" then pos 20 else other

abbrev column : Source ℤ
column = record {
  get_string = λ name other.
      if str_eq name "type"
      then "toprange"
      else if str_eq name "maxname"
      then "temperature"
      else other;
  get_double = attributes;
  xpath_exists = λ name. str_eq name "min";
  max_of = λ _. ok (pos 25);
  min_of = λ _. ok (pos 18);
}

-- The range of ten follows the largest value.
of_config_run : of_config column (pos 0) ≡ ok record { a = pos 0; b = pos 15 }
unfolding of_config ◌-ℤ◌ ◌+ℤ◌
of_config_run = refl

abbrev made : Store String
made = record {
  cells = λ a. if 0 == a then some record { refcount = pos 0; object = "barometer" } else none;
  next = 1;
  handles = [];
}

-- A packet reader cannot be managed twice.
manage_run : (manage 0 made >>= manage 0) ≡ err already_managed
unfolding manage
manage_run = refl

delegate_run : (manage 0 made >>= delegate 0) ≡ ok "barometer"
unfolding manage delegate
delegate_run = refl
