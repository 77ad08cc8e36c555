-- ===== src/Window.antt =====
-- lib/GraphWindow.cc and include/GraphWindow.h: the window of a frame that a graph is drawn in, with one column
-- for each interval of time. Times are natural numbers after 1970, and colors are the numbers of gd.
pub mod Grid
pub mod Laws
pub mod Lines
pub mod Wind
use meteo.Base.{
  ℕ, zero, suc, ◌+◌, ◌-◌, ◌*◌, ◌/◌, ◌%◌, Bool, true, false, List, [], ◌∷◌, ◌++◌, Option, none, some,
  String, if◌then◌else◌,
}
use meteo.Base.Int.{ℤ, pos, negsuc, pos_part, ◌+ℤ◌, ◌-ℤ◌}
use meteo.Base.Double.{Double}
use meteo.Time.Offset.{timekey_of, time_of}
use meteo.Tdata.{Tdata, Data}
use meteo.Tdata
use meteo.Scale.{Scale}
use meteo.Scale
use meteo.Frame.{
  Point, Rectangle, get_left, get_right, get_low, get_high, width_of, height_of, Dimension,
  LineStyle, Gd, draw_line, draw_rectangle,
}

pub record Window (D : Type 0) : Type 0 where
  pub parent : Dimension
  pub window : Rectangle
  pub offset : ℤ
  pub interval : ℕ
  pub starttime : ℕ
  pub endtime : ℕ
  pub leftscale : Scale D
  pub rightscale : Scale D

-- Division of ints, which drops what is behind the point
abbrev pub quot_ℤ : ℤ → ℕ → ℤ
quot_ℤ (pos a) i = pos (a / i)
quot_ℤ (negsuc a) i = pos 0 -ℤ pos (suc a / i)

abbrev pub kept_if : {A : Type 0} → Bool → Option A → Option A
kept_if true o = o
kept_if false o = none

module _ {D : Type 0} ⦃d : Double D⦄ where
  -- getWidth, as the number of rounds that it gives a loop
  abbrev pub get_width : Window D → ℕ
  get_width g = pos_part (width_of g.window)

  -- reduceTime
  unfoldable pub reduce_time : Window D → ℕ → ℕ
  reduce_time g t = t - timekey_of g.offset t % g.interval

  -- setEndTime and setStartTime
  unfoldable pub set_end_time : ℕ → Window D → Window D
  unfolding reduce_time
  set_end_time e g = record g {
    endtime = reduce_time g e;
    starttime = reduce_time g e - get_width g * g.interval;
  }

  unfoldable pub set_start_time : ℕ → Window D → Window D
  unfolding reduce_time
  set_start_time s g = record g {
    starttime = reduce_time g s;
    endtime = reduce_time g s + get_width g * g.interval;
  }

  -- getIndexFromTime, getXFromTime and getTimeFromIndex
  unfoldable pub get_index_from_time : Window D → ℕ → ℤ
  unfolding reduce_time
  get_index_from_time g t = quot_ℤ (pos (reduce_time g t) -ℤ pos g.starttime) g.interval

  unfoldable pub get_x_from_time : Window D → ℕ → ℤ
  unfolding get_index_from_time
  get_x_from_time g t = get_left g.window +ℤ get_index_from_time g t

  abbrev pub get_time_from_index : Window D → ℕ → ℕ
  get_time_from_index g i = g.starttime + i * g.interval

  -- getY
  unfoldable pub get_y : Window D → Bool → D → ℤ
  unfolding Scale.apply
  get_y g useleftscale value =
      let y = Scale.apply (if useleftscale then g.leftscale else g.rightscale) value in
      d.trunc (d.add (d.mul y (d.of_int (height_of g.window))) (d.of_int (get_low g.window)))

  -- getPoint, getBottomPoint and getTopPoint
  abbrev pub get_point : Window D → Bool → ℕ → D → Point
  get_point g useleftscale t v = record { x = get_x_from_time g t; y = get_y g useleftscale v }

  abbrev pub get_bottom_point : Window D → ℕ → Point
  get_bottom_point g t = record { x = get_x_from_time g t; y = get_low g.window }

  abbrev pub get_top_point : Window D → ℕ → Point
  get_top_point g t = record { x = get_x_from_time g t; y = get_high g.window }

  -- The value of a column
  abbrev pub at_column : Window D → Data D → ℕ → Option D
  at_column g entries i = Tdata.find entries (timekey_of g.offset (get_time_from_index g i))

  -- drawLine between the points of two columns
  abbrev pub line_between : Window D → Bool → ℕ → LineStyle → Option (ℕ × D) → ℕ → D → List Gd
  line_between g useleftscale color style none t v = []
  line_between g useleftscale color style (some (s, w)) t v =
      draw_line g.parent (get_point g useleftscale s w) (get_point g useleftscale t v) color style

  -- A round of drawLine, where `next` goes on with the point that the next line begins at
  abbrev pub at_round :
      Window D
      → Bool
      → ℕ
      → LineStyle
      → Bool
      → (i : ℕ) → Option (ℕ × D)
      → Option D
      → (Option (ℕ × D) → List Gd)
      → List Gd
  at_round g useleftscale color style connected i previous none next =
      next (kept_if connected previous)
  at_round g useleftscale color style connected i previous (some v) next =
      line_between g useleftscale color style previous (get_time_from_index g i) v
      ++ next (some (get_time_from_index g i, v))

  -- The loop of drawLine for the columns from `i` on
  abbrev pub draw_from :
      Window D → Bool → Data D → ℕ → LineStyle → Bool → (rounds i : ℕ) → Option (ℕ × D) → List Gd
  draw_from g useleftscale entries color style connected zero i previous = []
  draw_from g useleftscale entries color style connected (suc n) i previous =
      at_round g useleftscale color style connected i previous (at_column g entries i)
        (draw_from g useleftscale entries color style connected n (suc i))

  unfoldable pub draw_series : Window D → Bool → Tdata D → ℕ → LineStyle → Bool → List Gd
  draw_series g useleftscale series color style connected =
      draw_from g useleftscale series.entries color style connected (get_width g) 0 none

  -- drawHistogram
  unfoldable pub draw_histogram : Window D → Bool → Data D → ℕ → List Gd
  draw_histogram g useleftscale [] color = []
  draw_histogram g useleftscale ((timekey, v) ∷ entries) color =
      draw_line g.parent (get_bottom_point g (time_of g.offset timekey))
        (get_point g useleftscale (time_of g.offset timekey) v) color LineStyle.solid
      ++ draw_histogram g useleftscale entries color

  -- drawRange
  abbrev pub range_line : Window D → Bool → ℕ → ℕ → D → Option D → List Gd
  range_line g useleftscale color t v none = []
  range_line g useleftscale color t v (some w) =
      draw_line g.parent (get_point g useleftscale t v) (get_point g useleftscale t w) color
        LineStyle.solid

  unfoldable pub draw_range : Window D → Bool → Data D → Data D → ℕ → List Gd
  draw_range g useleftscale [] upper color = []
  draw_range g useleftscale ((timekey, v) ∷ lower) upper color =
      range_line g useleftscale color (time_of g.offset timekey) v (Tdata.find upper timekey)
      ++ draw_range g useleftscale lower upper color

  -- drawNodata: the loop goes one column further than that of drawLine.
  abbrev pub no_data_line : Window D → ℕ → ℕ → Option D → List Gd
  no_data_line g color t (some _) = []
  no_data_line g color t none =
      draw_line g.parent (get_top_point g t) (get_bottom_point g t) color LineStyle.solid

  abbrev pub no_data_from : Window D → Data D → ℕ → (rounds i : ℕ) → List Gd
  no_data_from g entries color zero i = []
  no_data_from g entries color (suc n) i =
      no_data_line g color (get_time_from_index g i) (at_column g entries i)
      ++ no_data_from g entries color n (suc i)

  unfoldable pub draw_nodata : Window D → Tdata D → ℕ → List Gd
  draw_nodata g series color = no_data_from g series.entries color (get_width g + 1) 0
