-- ===== src/Reader/Calibrator.antt =====
-- lib/Calibrator.cc and include/Calibrator.h: a linear map with clipping.
use meteo.Base.{◌≡◌, false, Option, none, some, if◌then◌else◌, arith}
use meteo.Base.Int.{pos}
use meteo.Base.Double.{Double, IsOrdered}

-- A clip level is set together with its flag, and read only where the flag is set: `none` is the
-- cleared flag.
pub record Calibrator (D : Type 0) : Type 0 where
  pub slope : D
  pub y0 : D
  pub topclip : Option D
  pub bottomclip : Option D

module _ {D : Type 0} ⦃d : Double D⦄ where
  -- the three constructors
  unfoldable pub identity : Calibrator D
  identity = record {
    slope = d.lit (pos 1) 0;
    y0 = d.lit (pos 0) 0;
    topclip = none;
    bottomclip = none;
  }

  unfoldable pub linear : D → D → Calibrator D
  linear m y = record { slope = m; y0 = y; topclip = none; bottomclip = none }

  unfoldable pub through : D → D → D → D → Calibrator D
  through x1 y1 x2 y2 =
      let slope = d.div (d.sub y2 y1) (d.sub x2 x1) in
      record { slope = slope; y0 = d.sub y1 (d.mul slope x1); topclip = none; bottomclip = none }

  unfoldable pub set_topclip : D → Calibrator D → Calibrator D
  set_topclip t c = record c { topclip = some t }

  unfoldable pub set_bottomclip : D → Calibrator D → Calibrator D
  set_bottomclip t c = record c { bottomclip = some t }

  unfoldable pub clip_top : Option D → D → D
  clip_top none y = y
  clip_top (some level) y = if d.lt level y then level else y

  unfoldable pub clip_bottom : Option D → D → D
  clip_bottom none y = y
  clip_bottom (some level) y = if d.lt y level then level else y

  -- `operator()`
  unfoldable pub apply : Calibrator D → D → D
  unfolding clip_top clip_bottom
  apply c x = clip_bottom c.bottomclip (clip_top c.topclip (d.add (d.mul c.slope x) c.y0))

  module _ (laws : IsOrdered D) where
    open laws use {lt_irrefl}

    -- Where `<` is irreflexive: with both clips set and the top not below the bottom, no calibrated
    -- value lies above the top or below the bottom, whatever the calibrator was before.
    pub apply_clipped :
        (c : Calibrator D) (top bottom x : D)
        → d.lt top bottom ≡ false
        → let y = apply (set_bottomclip bottom (set_topclip top c)) x in
          (d.lt top y ≡ false) × (d.lt y bottom ≡ false)
    unfolding apply set_topclip set_bottomclip
    apply_clipped c top bottom x h = ground (arith, lt_irrefl top, lt_irrefl bottom)
