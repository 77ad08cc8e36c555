-- ===== src/Window/Lines.antt =====
-- The lines that drawLine of lib/GraphWindow.cc draws for a series of values.
use meteo.Base.{
  ℕ, zero, suc, ◌-◌, ◌≡◌, refl, ap, ◌∙◌, Bool, false, List, [], ◌++◌, Option, none, some, arith,
}
use meteo.Base.Double.{Double}
use meteo.Tdata.{Tdata, Data}
use meteo.Frame.{LineStyle, Gd, draw_line}
use meteo.Window.{
  Window, get_width, get_time_from_index, get_point, at_column, at_round, draw_from, draw_series,
}

module _ {D : Type 0} ⦃d : Double D⦄ (g : Window D) (useleftscale : Bool) (color : ℕ)
    (style : LineStyle) where
  abbrev pub line_joining : ℕ → Option D → Option D → List Gd
  line_joining i (some v) (some w) =
      draw_line g.parent (get_point g useleftscale (get_time_from_index g i) v)
        (get_point g useleftscale (get_time_from_index g (suc i)) w) color style
  line_joining i _ _ = []

  -- A line between each two neighbouring columns that both have a value.
  abbrev pub segments : Data D → (count i : ℕ) → List Gd
  segments entries zero i = []
  segments entries (suc n) i =
      line_joining i (at_column g entries i) (at_column g entries (suc i))
      ++ segments entries n (suc i)

  abbrev last_point : ℕ → Option D → Option (ℕ × D)
  last_point i none = none
  last_point i (some v) = some (get_time_from_index g i, v)

  round_joined :
      (i : ℕ) (o o' : Option D) (next : Option (ℕ × D) → List Gd) (rest : List Gd)
      → next (last_point (suc i) o') ≡ rest
      → at_round g useleftscale color style false (suc i) (last_point i o) o' next
        ≡ line_joining i o o' ++ rest
  round_joined i none none next rest e = e
  round_joined i none (some w) next rest e = e
  round_joined i (some v) none next rest e = e
  round_joined i (some v) (some w) next rest e =
      ap
        (λ r.
          draw_line g.parent (get_point g useleftscale (get_time_from_index g i) v)
            (get_point g useleftscale (get_time_from_index g (suc i)) w) color style
          ++ r)
        e

  draw_from-segments :
      (entries : Data D) (n i : ℕ)
      → draw_from g useleftscale entries color style false n
          (suc i)
          (last_point i (at_column g entries i))
        ≡ segments entries n i
  draw_from-segments entries zero i = refl
  draw_from-segments entries (suc n) i =
      round_joined i (at_column g entries i) (at_column g entries (suc i))
        (draw_from g useleftscale entries color style false n (suc (suc i)))
        (segments entries n (suc i)) (draw_from-segments entries n (suc i))

  first_round :
      (o : Option D) (next : Option (ℕ × D) → List Gd)
      → at_round g useleftscale color style false 0 none o next ≡ next (last_point 0 o)
  first_round none next = refl
  first_round (some v) next = refl

  by_width :
      (series : Tdata D) (n : ℕ)
      → draw_from g useleftscale series.entries color style false n 0 none
        ≡ segments series.entries (n - 1) 0
  by_width series zero = refl
  by_width series (suc n) =
      first_round (at_column g series.entries 0)
        (draw_from g useleftscale series.entries color style false n 1)
      ∙ draw_from-segments series.entries n 0
      ∙ ap (λ (k : ℕ). segments series.entries k 0) (omega arith)

  -- A series that is drawn without connecting its gaps: the lines are those between each two neighbouring columns
  -- of the window that both have a value, from the left to the right, and no others.
  pub draw_series-segments :
      (series : Tdata D)
      → draw_series g useleftscale series color style false
        ≡ segments series.entries (get_width g - 1) 0
  unfolding draw_series
  draw_series-segments series = by_width series (get_width g)
