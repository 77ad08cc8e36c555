-- ===== src/Scale.antt =====
-- lib/Scale.cc and include/Scale.h: the map from a graph's data to [0, 1]. The Configuration and the Dataset
-- are handed in; what an attribute has goes under its name without the path.
pub mod Laws
use meteo.Base.{Bool, true, false, Result, ok, err, ◌>>=◌, if◌then◌else◌, String, no_limit}
use meteo.Base.Text.{str_eq}
use meteo.Base.Int.{pos}
use meteo.Base.Double.{Double}

-- Configuration: getString, getDouble and xpathExists; `max_of` and `min_of` are the `max` and `min` of the
-- data set's column.
pub record Source (D : Type 0) : Type 0 where
  pub get_string : String → String → String
  pub get_double : String → D → D
  pub xpath_exists : String → Bool
  pub max_of : String → Result D
  pub min_of : String → Result D

pub record Scale (D : Type 0) : Type 0 where
  pub a : D
  pub b : D

module _ {D : Type 0} ⦃d : Double D⦄ where
  abbrev pub nothing : D
  nothing = d.lit (pos 0) 0

  abbrev pub one : D
  one = d.lit (pos 1) 0

  -- Scale(void) and Scale(double, double)
  abbrev pub identity : Scale D
  identity = record { a = one; b = nothing }

  abbrev pub between : D → D → Scale D
  between min max = record { a = d.div one (d.sub max min); b = min }

  -- operator(): the value in the scale, cut off at both ends
  abbrev pub cut : D → D
  cut y = if d.lt one y then one else if d.lt y nothing then nothing else y

  unfoldable pub apply : Scale D → D → D
  apply s x = cut (d.mul s.a (d.sub x s.b))

  -- getMin, range and getMax
  abbrev pub get_min : Scale D → D
  get_min s = s.b

  abbrev pub range : Scale D → D
  range s = d.div one s.a

  abbrev pub get_max : Scale D → D
  get_max s = d.add s.b (range s)

  module _ (conf : Source D) where
    -- One end of the data: the extreme of the column that the attribute names, or the configured end.
    abbrev pub end_of : String → String → (String → Result D) → Result D
    end_of nameattr attr of_column =
        let name = conf.get_string nameattr "none" in
        if str_eq name "none"
        then if conf.xpath_exists attr then ok (conf.get_double attr nothing) else err no_limit
        else of_column name

    -- The type "dynamic": the data's own range, at least a step high
    abbrev pub dynamic : D → D → D → Scale D
    dynamic step min max =
        let top = if d.lt (d.sub max min) step then d.add min step else max in
        record { a = d.div one (d.sub top min); b = min }

    -- The start `b` of the types "toprange" and "bottomrange"; the assignment where the data fits is
    -- overwritten.
    abbrev pub top_start : D → D → D → D → D → D
    top_start min2 max2 r min max =
        if d.lt max2 max
        then d.sub max r
        else if d.lt min min2
        then if d.lt (d.add min r) max then d.sub max r else min2
        else min2

    abbrev pub bottom_start : D → D → D → D → D → D
    bottom_start min2 max2 r min max =
        if d.lt min min2
        then min
        else if d.lt max2 max
        then if d.lt min (d.sub max r) then min else min2
        else min2

    -- Scale(const std::string&, const Dataset&); `left` stands for the `b` that no type sets
    unfoldable pub of_config : D → Result (Scale D)
    of_config left =
        let type = conf.get_string "type" "static" in
        let min2 = conf.get_double "min" nothing in
        let max2 = conf.get_double "max" one in
        let r = d.sub max2 min2 in
        let a = d.div one r in
        let step = conf.get_double "step" one in
        let by_data = end_of "maxname" "max" conf.max_of >>= λ max.
        end_of "minname" "min" conf.min_of >>= λ min. ok (
          if str_eq type "dynamic"
          then dynamic step min max
          else if str_eq type "toprange"
          then record { a = a; b = top_start min2 max2 r min max }
          else if str_eq type "bottomrange"
          then record { a = a; b = bottom_start min2 max2 r min max }
          else record { a = a; b = left }) in
        if str_eq type "static" then ok record { a = a; b = min2 } else by_data
