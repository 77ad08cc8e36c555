-- ===== src/Window/Grid.antt =====
-- The time grid of lib/GraphWindow.cc, with the areas of the image map. `localtime`, `strftime`, the time of the
-- day and the width of the font are handed in.
pub mod Laws
use meteo.Base.{
  ℕ, zero, suc, ◌+◌, ◌-◌, ◌*◌, ◌/◌, ◌%◌, ◌==◌, ltb, leb, Bool, true, false, ◌&&◌, ◌||◌, List, [],
  ◌∷◌, ◌++◌, String, if◌then◌else◌,
}
use meteo.Base.Int.{ℤ, pos, ◌+ℤ◌, ◌-ℤ◌}
use meteo.Base.Double.{Double}
use meteo.Time.Label.{Tm}
use meteo.Frame.{
  Point, Rectangle, get_left, get_right, get_low, get_high, Dimension, LineStyle, Gd, draw_line,
  draw_text,
}
use meteo.Window.{Window, get_x_from_time}

-- startOfHalfhour and the others, at a broken-down time
abbrev pub start_of_halfhour : Tm → Bool
start_of_halfhour lt = (lt.tm_min == 0 || lt.tm_min == 30) && lt.tm_sec == 0

abbrev pub start_of_hour : Tm → Bool
start_of_hour lt = lt.tm_min == 0 && lt.tm_sec == 0

abbrev pub start_of_even_hour : Tm → Bool
start_of_even_hour lt = (lt.tm_hour % 2) == 0 && (lt.tm_min == 0 && lt.tm_sec == 0)

abbrev pub start_of_day : Tm → Bool
start_of_day lt = lt.tm_hour == 0 && lt.tm_min == 0

abbrev pub middle_of_day : Tm → Bool
middle_of_day lt = lt.tm_hour == 12 && lt.tm_min == 0

abbrev pub start_of_week : Tm → Bool
start_of_week lt = (lt.tm_hour == 0 || lt.tm_hour == 1) && lt.tm_wday == 0

abbrev pub middle_of_week : Tm → Bool
middle_of_week lt = (lt.tm_hour == 12 || lt.tm_hour == 13) && lt.tm_wday == 3

abbrev pub start_of_month : Tm → Bool
start_of_month lt = lt.tm_mday == 1

abbrev pub middle_of_month : Tm → Bool
middle_of_month lt = lt.tm_mday == 15

-- MapArea, with the time of its label in place of the label
pub record MapArea : Type 0 where
  pub area : Rectangle
  pub midtime : ℕ
  pub starttime : ℕ

-- What the C library and the clock give
pub record Clock : Type 0 where
  pub localtime : ℕ → Tm
  pub strftime : String → Tm → String
  pub length : String → ℕ
  pub now : ℕ
  pub font_width : ℕ

-- The drawing so far, the image map and where the next area begins
pub record Progress : Type 0 where
  pub drawn : List Gd
  pub areas : List MapArea
  pub areastart : ℕ

-- How an interval marks its grid: the ticks, the labels with their format, and whether a tick ends an area
pub record Marks : Type 0 where
  pub tick : Tm → Bool
  pub label : Tm → Bool
  pub format : String
  pub with_area : Bool

abbrev pub no_mark : Tm → Bool
no_mark lt = false

-- The cases of drawTimeGrid
abbrev pub marks_of : ℕ → Marks
marks_of interval =
    if interval == 60
    then record {
      tick = start_of_halfhour;
      label = start_of_hour;
      format = "%H";
      with_area = false;
    }
    else if interval == 300
    then record {
      tick = start_of_hour;
      label = start_of_even_hour;
      format = "%H";
      with_area = false;
    }
    else if interval == 1800
    then record { tick = start_of_day; label = middle_of_day; format = "%a"; with_area = true }
    else if interval == 7200
    then record {
      tick = start_of_week;
      label = middle_of_week;
      format = "week %V";
      with_area = true;
    }
    else if interval == 86400
    then record { tick = start_of_month; label = middle_of_month; format = "%b"; with_area = true }
    else record { tick = no_mark; label = no_mark; format = ""; with_area = false }

module _ {D : Type 0} ⦃d : Double D⦄ (c : Clock) (foreground : ℕ) (g : Window D) where
  -- getArea: the coordinates of an image map count from the top.
  unfoldable pub get_area : ℕ → ℕ → MapArea
  get_area start end = record {
    area = record {
      lowerleft = record {
        x = get_x_from_time g start;
        y = pos g.parent.height -ℤ get_low g.window;
      };
      upperright = record {
        x = get_x_from_time g end;
        y = pos g.parent.height -ℤ get_high g.window;
      };
    };
    midtime = start / 2 + end / 2;
    starttime = start;
  }

  -- ImageMap::addArea
  abbrev pub add_area : MapArea → List MapArea → List MapArea
  add_area a areas = if ltb a.starttime c.now then areas ++ (a ∷ []) else areas

  -- drawVerticalLine, drawTimeTick and drawTimeLabel
  abbrev pub draw_vertical_line : ℕ → LineStyle → List Gd
  draw_vertical_line t style =
      let x = get_x_from_time g t in
      draw_line g.parent (record { x = x; y = get_high g.window })
        (record { x = x; y = get_low g.window }) foreground style

  abbrev pub draw_time_tick : ℕ → List Gd
  draw_time_tick t =
      let x = get_x_from_time g t in
      draw_line g.parent (record { x = x; y = get_low g.window +ℤ pos 2 })
        (record { x = x; y = get_low g.window -ℤ pos 2 }) foreground LineStyle.solid

  abbrev pub draw_time_label : ℕ → String → List Gd
  draw_time_label t label =
      let half =
        d.mul (d.mul (d.lit (pos 5) 1) (d.of_int (pos c.font_width)))
          (d.of_int (pos (c.length label))) in
      let x = d.trunc (d.sub (d.of_int (get_x_from_time g t)) half) in
      draw_text g.parent label (record { x = x; y = get_low g.window -ℤ pos 5 }) foreground true

  abbrev pub ticked : Bool → Bool → ℕ → Progress → Progress
  ticked false with_area t p = p
  ticked true false t p = record p {
    drawn = p.drawn ++ (draw_vertical_line t LineStyle.dotted ++ draw_time_tick t);
  }
  ticked true true t p = record {
    drawn = p.drawn ++ (draw_vertical_line t LineStyle.dotted ++ draw_time_tick t);
    areas = add_area (get_area p.areastart t) p.areas;
    areastart = t;
  }

  abbrev pub labelled_at : Bool → ℕ → String → Progress → Progress
  labelled_at false t label p = p
  labelled_at true t label p = record p { drawn = p.drawn ++ draw_time_label t label }

  -- A round of the loop
  abbrev pub mark : Marks → ℕ → Progress → Progress
  mark marks t p =
      labelled_at (marks.label (c.localtime t)) t (c.strftime marks.format (c.localtime t))
        (ticked (marks.tick (c.localtime t)) marks.with_area t p)

  abbrev pub mark_from : Marks → (rounds : ℕ) → ℕ → Progress → Progress
  mark_from marks zero t p = p
  mark_from marks (suc n) t p =
      let rest = mark_from marks n (t + g.interval) (mark marks t p) in
      if leb t g.endtime then rest else p

  abbrev pub last_area : Progress → Progress
  last_area p =
      if ltb 300 g.interval
      then record p { areas = add_area (get_area p.areastart g.endtime) p.areas }
      else p

  -- drawTimeGrid, on an image map without areas; a round goes on by one at least
  unfoldable pub draw_time_grid : Progress
  unfolding get_area
  draw_time_grid = last_area (
      mark_from (marks_of g.interval) (g.endtime + 1 - g.starttime) g.starttime
        (record { drawn = []; areas = []; areastart = g.starttime }))

  -- drawFrame
  unfoldable pub draw_frame : List Gd
  draw_frame =
      let l = get_left g.window -ℤ pos 1 in
      let r = get_right g.window +ℤ pos 1 in
      let side = λ (x y x' y' : ℤ).
        draw_line g.parent (record { x = x; y = y }) (record { x = x'; y = y' }) foreground
          LineStyle.solid in
      side l (get_low g.window) r (get_low g.window)
      ++ (side l (get_high g.window) r (get_high g.window)
          ++ (side l (get_low g.window) l (get_high g.window)
              ++ side r (get_low g.window) r (get_high g.window)))
