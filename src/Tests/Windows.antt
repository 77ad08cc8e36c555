-- ===== src/Tests/Windows.antt =====
-- A window of ten columns, of half an hour and of five minutes.
use meteo.Base.{ℕ, ◌+◌, ◌-◌, ◌*◌, ◌%◌, ◌≡◌, refl, true, false, [], ◌∷◌, arith}
use meteo.Base.Int.{ℤ, pos, negsuc, ltb_ℤ, ◌≤ℤ◌, ◌-ℤ◌}
use meteo.Base.Double.{int_double}
use meteo.Time.Offset.{timekey_of}
use meteo.Tdata.{Tdata}
use meteo.Frame.{Rectangle, LineStyle, get_left, get_right}
use meteo.Window.{
  Window, get_width, set_end_time, get_index_from_time, get_x_from_time, get_time_from_index,
  draw_series,
}
use meteo.Window.Laws.{IsOnGrid, get_index-get_time, set_end_time-IsOnGrid}
use meteo.Window.Lines.{segments, draw_series-segments}
use meteo.Window.Grid.{Clock, draw_time_grid}
use meteo.Window.Grid.Laws.{IsChain, draw_time_grid-IsChain}

abbrev box : Rectangle
box = record {
  lowerleft = record { x = pos 50; y = pos 20 };
  upperright = record { x = pos 60; y = pos 90 };
}

abbrev window_of : ℕ → Window ℤ
window_of i = record {
  parent = record { width = 100; height = 100 };
  window = box;
  offset = negsuc 3599;
  interval = i;
  starttime = 93600;
  endtime = 93600 + 10 * i;
  leftscale = record { a = pos 1; b = pos 0 };
  rightscale = record { a = pos 1; b = pos 0 };
}

half_hours-IsOnGrid : IsOnGrid (window_of 1800)
half_hours-IsOnGrid = record { some_time = omega arith; late = omega arith; grid = refl }

get_index-get_time_example :
    (get_index_from_time (window_of 1800) (get_time_from_index (window_of 1800) 3 + 59) ≡ pos 3)
    × (get_left box
        ≤ℤ get_x_from_time (window_of 1800) (get_time_from_index (window_of 1800) 3 + 59))
    × (ltb_ℤ
          (get_x_from_time (window_of 1800) (get_time_from_index (window_of 1800) 3 + 59))
          (get_right box)
        ≡ true)
unfolding ◌-ℤ◌
get_index-get_time_example =
    get_index-get_time (window_of 1800) half_hours-IsOnGrid 3 59 (omega arith) (omega arith)

set_end_time-IsOnGrid_example :
    IsOnGrid (set_end_time 200000 (window_of 300))
    × (timekey_of (negsuc 3599) (set_end_time 200000 (window_of 300)).endtime % 300 ≡ 0)
    × ((set_end_time 200000 (window_of 300)).starttime + get_width (window_of 300) * 300
        ≡ (set_end_time 200000 (window_of 300)).endtime)
unfolding ◌-ℤ◌
set_end_time-IsOnGrid_example =
    set_end_time-IsOnGrid (window_of 300) 200000 (omega arith) (omega arith) (omega arith)

abbrev series : Tdata ℤ
series = record {
  interval = 300;
  start = 90000;
  finish = 93000;
  entries = (90000, pos 0) ∷ (90300, pos 1) ∷ (90900, pos 1) ∷ [];
  constant = false;
  value = pos 0;
}

draw_series-segments_example :
    draw_series (window_of 300) true series 5 LineStyle.solid false
    ≡ segments
        (window_of 300)
        true
        5
        LineStyle.solid
        series.entries
        (get_width (window_of 300) - 1)
        0
draw_series-segments_example = draw_series-segments (window_of 300) true 5 LineStyle.solid series

abbrev clock : Clock
clock = record {
  localtime = λ t. record {
    tm_sec = 0;
    tm_min = t % 3600;
    tm_hour = t % 7200;
    tm_mday = 1;
    tm_wday = 0;
    tm_yday = 0;
  };
  strftime = λ format lt. format;
  length = λ s. 2;
  now = 2000000;
  font_width = 6;
}

draw_time_grid-IsChain_example :
    IsChain
      (get_x_from_time (window_of 1800) 93600)
      (draw_time_grid clock 0 (window_of 1800)).areas
      (get_x_from_time (window_of 1800) 111600)
draw_time_grid-IsChain_example =
    draw_time_grid-IsChain clock 0 (window_of 1800) half_hours-IsOnGrid (omega arith) (omega arith)
      (omega arith)
