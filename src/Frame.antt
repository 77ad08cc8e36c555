-- ===== src/Frame.antt =====
-- lib/Frame.cc and its points, rectangles and dimensions: the calls of the gd library that drawing makes. The
-- image of gd has its rows counted from the top, a frame from the bottom. The size of the font is handed in.
use meteo.Base.{ℕ, ◌/◌, Bool, List, [], ◌∷◌, ◌++◌, String, if◌then◌else◌}
use meteo.Base.Int.{ℤ, pos, ◌-ℤ◌}

pub record Point : Type 0 where
  pub x : ℤ
  pub y : ℤ

pub record Rectangle : Type 0 where
  pub lowerleft : Point
  pub upperright : Point

abbrev pub get_left : Rectangle → ℤ
get_left r = r.lowerleft.x

abbrev pub get_right : Rectangle → ℤ
get_right r = r.upperright.x

abbrev pub get_low : Rectangle → ℤ
get_low r = r.lowerleft.y

abbrev pub get_high : Rectangle → ℤ
get_high r = r.upperright.y

abbrev pub width_of : Rectangle → ℤ
width_of r = get_right r -ℤ get_left r

abbrev pub height_of : Rectangle → ℤ
height_of r = get_high r -ℤ get_low r

pub record Dimension : Type 0 where
  pub width : ℕ
  pub height : ℕ

pub data LineStyle : Type 0 where
  solid dotted dashed : LineStyle

-- The pen of a line: a color, or the style set before, and the dots of a style
pub data Pen : Type 0 where
  colored : ℕ → Pen
  styled : Pen

pub data Dot : Type 0 where
  inked : ℕ → Dot
  transparent : Dot

-- The calls of gd
pub data Gd : Type 0 where
  set_pixel : ℤ → ℤ → ℕ → Gd
  set_style : List Dot → Gd
  line : ℤ → ℤ → ℤ → ℤ → Pen → Gd
  filled_rectangle : ℤ → ℤ → ℤ → ℤ → ℕ → Gd
  string : ℤ → ℤ → String → ℕ → Gd
  string_up : ℤ → ℤ → String → ℕ → Gd

module _ (d : Dimension) where
  -- frame_internals::getY
  abbrev pub get_y : Point → ℤ
  get_y p = (pos d.height -ℤ p.y) -ℤ pos 1

  -- setBackground
  unfoldable pub set_background : ℕ → List Gd
  set_background color =
      Gd.filled_rectangle (pos 0) (pos 0) (pos d.width -ℤ pos 1) (pos d.height -ℤ pos 1) color ∷ []

  -- drawPoint
  unfoldable pub draw_point : Point → ℕ → List Gd
  draw_point p color = Gd.set_pixel p.x (get_y p) color ∷ []

  -- setLinestyle
  abbrev pub set_linestyle : ℕ → LineStyle → List Gd
  set_linestyle color LineStyle.solid = []
  set_linestyle color LineStyle.dotted =
      Gd.set_style (Dot.inked color ∷ Dot.transparent ∷ Dot.transparent ∷ []) ∷ []
  set_linestyle color LineStyle.dashed =
      Gd.set_style (
        Dot.inked color
        ∷ Dot.inked color
        ∷ Dot.inked color
        ∷ Dot.inked color
        ∷ Dot.transparent
        ∷ Dot.transparent
        ∷ [])
      ∷ []

  abbrev pub pen_of : ℕ → LineStyle → Pen
  pen_of color LineStyle.solid = Pen.colored color
  pen_of color LineStyle.dotted = Pen.styled
  pen_of color LineStyle.dashed = Pen.styled

  -- drawLine
  unfoldable pub draw_line : Point → Point → ℕ → LineStyle → List Gd
  draw_line p q color style =
      set_linestyle color style ++ (Gd.line p.x (get_y p) q.x (get_y q) (pen_of color style) ∷ [])

  -- drawRectangle: gd takes the upper left and the lower right corner.
  unfoldable pub draw_rectangle : Rectangle → ℕ → List Gd
  draw_rectangle r color =
      Gd.filled_rectangle r.lowerleft.x (get_y r.upperright) r.upperright.x (get_y r.lowerleft)
        color
      ∷ []

  -- drawText
  unfoldable pub draw_text : String → Point → ℕ → Bool → List Gd
  draw_text text p color horizontal =
      (if horizontal
        then Gd.string p.x (get_y p) text color
        else Gd.string_up p.x (get_y p) text color)
      ∷ []

  -- drawLetter, with the width and the height of the font
  unfoldable pub draw_letter : ℕ → ℕ → String → Point → ℕ → List Gd
  draw_letter w h letter p color =
      Gd.string (p.x -ℤ pos (w / 2)) (get_y p -ℤ pos (h / 2)) letter color ∷ []
