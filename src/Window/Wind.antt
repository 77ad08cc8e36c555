-- ===== src/Window/Wind.antt =====
-- The background of a wind graph in lib/GraphWindow.cc, which shows the directions.
use meteo.Base.{ℕ, zero, suc, ◌+◌, ◌-◌, ◌*◌, ◌/◌, ltb, List, [], ◌++◌, Bool, String, if◌then◌else◌}
use meteo.Base.Int.{pos}
use meteo.Base.Double.{Double}
use meteo.Frame.{Gd, draw_rectangle, draw_letter}
use meteo.Window.{Window, get_point}

module _ {D : Type 0} ⦃d : Double D⦄ (g : Window D) (useleftscale : Bool) where
  abbrev pub azimuth : ℕ → D
  azimuth a = d.lit (pos a) 0

  -- A sector of directions
  abbrev pub sector : ℕ → ℕ → ℕ → List Gd
  sector a b color =
      draw_rectangle g.parent
        (record {
          lowerleft = get_point g useleftscale g.starttime (azimuth a);
          upperright = get_point g useleftscale g.endtime (azimuth b);
        })
        color

  -- drawWindBackground
  unfoldable pub draw_wind_background : (north south west east : ℕ) → List Gd
  draw_wind_background north south west east =
      sector 0 45 south
      ++ (sector 315 360 south
          ++ (sector 135 225 north ++ (sector 225 315 east ++ sector 45 135 west)))

  -- drawWindBackgroundLetters, for the letters of the four directions: the letters of a time, and the loop over
  -- the times, which goes on by two steps
  abbrev pub letters_at : (font_width font_height background : ℕ) → (ℕ → String) → ℕ → List Gd
  letters_at w h background letter t =
      let at_azimuth = λ (a : ℕ) (l : String).
        draw_letter g.parent w h l (get_point g useleftscale t (azimuth a)) background in
      at_azimuth 0 (letter 0)
      ++ (at_azimuth 90 (letter 1)
          ++ (at_azimuth 180 (letter 2)
              ++ (at_azimuth 270 (letter 3) ++ at_azimuth 360 (letter 0))))

  abbrev pub letters_from : (ℕ → List Gd) → (step rounds t : ℕ) → List Gd
  letters_from at_time step zero t = []
  letters_from at_time step (suc n) t =
      let rest = at_time t ++ letters_from at_time step n (t + 2 * step) in
      if ltb t (g.endtime - step) then rest else []

  unfoldable pub draw_wind_background_letters :
      (font_width font_height background : ℕ) → (ℕ → String) → List Gd
  draw_wind_background_letters w h background letter =
      let step = 3 * w * g.interval / 2 in
      letters_from (letters_at w h background letter) step (g.endtime - g.starttime)
        (g.starttime + step)
