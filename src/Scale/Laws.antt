-- ===== src/Scale/Laws.antt =====
-- The ends of lib/Scale.cc.
use meteo.Base.{◌≡◌, false, inl, inr, Bool-cases}
use meteo.Base.Double.{Double, IsOrdered}
use meteo.Scale.{Scale, apply, cut, nothing, one}

module _ {D : Type 0} ⦃d : Double D⦄ (laws : IsOrdered D) where
  open laws use {lt_irrefl}

  cut_bounds :
      (y : D)
      → d.lt one nothing ≡ false
      → (d.lt one (cut y) ≡ false) × (d.lt (cut y) nothing ≡ false)
  cut_bounds y h = elim (Bool-cases (d.lt one y)) [
    | inl above ↦ rw above (lt_irrefl one, h)
    | inr under ↦ elim (Bool-cases (d.lt y nothing)) [
      | inl below ↦ rw (under, below) (h, lt_irrefl nothing)
      | inr inside ↦ rw (under, inside) (under, inside)
    ]
  ]

  -- Where `<` is irreflexive and 1 is not below 0: what a scale makes of any value lies neither above 1 nor
  -- below 0.
  pub apply_bounds :
      (s : Scale D) (x : D)
      → d.lt one nothing ≡ false
      → (d.lt one (apply s x) ≡ false) × (d.lt (apply s x) nothing ≡ false)
  unfolding apply
  apply_bounds s x h = cut_bounds (d.mul s.a (d.sub x s.b)) h
