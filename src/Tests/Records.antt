-- ===== src/Tests/Records.antt =====
-- Recorders, data sets, stations and converters.
use meteo.Base.{
  ◌+◌, ◌&&◌, ℕ, ◌≡◌, ◌↔◌, refl, true, false, ◌||◌, List, [], ◌∷◌, none, Result, ok, is_ok, arith,
  String,
}
use meteo.Base.Text.{str_eq}
use meteo.Base.Int.{◌-ℤ◌, ℤ, pos, negsuc}
use meteo.Base.Double.{int_double}
use meteo.Time.Timeval.{Timeval, of_seconds}
use meteo.Recorder.Basic.{Basic}
use meteo.Recorder.Minmax.{Minmax}
use meteo.Recorder.Minmax.Laws.{Reading}
use meteo.Recorder.Rain.{Rain}
use meteo.Recorder.Rain
use meteo.Recorder.Rain.Laws.{feed, fallen, value_of-feed}
use meteo.Tdata.{Data, Tdata}
use meteo.Tdata.Maps.{IsSorted}
use meteo.Reader.Kinds.{Kind}
use meteo.Reader.Calibrator.{Calibrator}
use meteo.Station.{Managed, Readers}
use meteo.Averager.{group_info, selects}
use meteo.Averager.Laws.{selects_twice}
use meteo.Converter.{Class}
use meteo.Converter.Units.{convert}
use meteo.Converter.Laws.{accepts, convert_ok}

abbrev empty : Basic ℤ
empty = record {
  isvalid = false;
  start = of_seconds (pos 0);
  lastupdate = of_seconds (pos 0);
  value = pos 0;
}

abbrev minmax : Minmax ℤ
minmax = record { basic = empty; max = pos 0; min = pos 0; storeminmax = true }

abbrev reading_at : ℕ → ℤ → Reading ℤ
reading_at t v = record {
  average_at = of_seconds (pos t);
  update_at = of_seconds (pos t);
  reading = v;
}

abbrev readings : List (Reading ℤ)
readings = reading_at 10 (pos 21) ∷ reading_at 20 (negsuc 3) ∷ reading_at 30 (pos 17) ∷ []

-- The counter stands at 250 ticks.
abbrev gauge : Rain ℤ
gauge = record { basic = record empty { isvalid = true; value = pos 250 }; startvalue = pos 240 }

abbrev counts : List (Timeval × ℤ)
counts =
    (of_seconds (pos 10), pos 253)
    ∷ (of_seconds (pos 20), pos 4)
    ∷ (of_seconds (pos 30), pos 6)
    ∷ []

value_of-feed_example :
    Rain.value_of (feed counts (Rain.reset gauge)) ≡ ok (fallen (pos 250) counts)
value_of-feed_example = value_of-feed gauge counts refl

abbrev series : Tdata ℤ
series = record {
  interval = 300;
  start = 600;
  finish = 1200;
  entries = (600, pos 7) ∷ (900, negsuc 1) ∷ [];
  constant = false;
  value = pos 0;
}

series-IsSorted : IsSorted series.entries
series-IsSorted = ((omega arith, _), (_, _))

abbrev input : Data ℤ
input = (700, pos 1) ∷ (900, pos 5) ∷ []

-- A database that has every field.
abbrev any_class : String → Result String
any_class _ = ok "BasicValue"

abbrev no_readers : Readers ℤ
no_readers = []

abbrev rain_cal : Calibrator ℤ
rain_cal = record { slope = pos 2; y0 = pos 0; topclip = none; bottomclip = none }

abbrev rain_reader : Managed ℤ
rain_reader = record { kind = Kind.rain 12; cal = rain_cal; classname = "Rain"; unit = "in" }

abbrev one_reader : Readers ℤ
one_reader = ("outside.rain", rain_reader) ∷ []

convert_ok_example :
    is_ok (convert Class.temperature "K" (pos 68) "F")
    ≡ (str_eq "F" "K" || accepts Class.temperature "F" "K")
convert_ok_example = convert_ok Class.temperature "K" "F" (pos 68)

selects_twice_example :
    ((selects (group_info 1200 300 (pos 60)) (pos 1440)
          && selects (group_info (1200 + 300) 300 (pos 60)) (pos 1440)
        ≡ true)
      ↔ (pos 1440 ≡ (group_info 1200 300 (pos 60)).time_to))
    × (selects (group_info 1200 300 (pos 60)) (pos 1200 -ℤ pos 60) ≡ true)
selects_twice_example = selects_twice 1200 300 (pos 60) (pos 1440) (omega arith)
